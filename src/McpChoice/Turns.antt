-- ===== src/McpChoice/Turns.antt =====
-- control-plane/src/sandbox/manager/sandbox-manager.ts: the host's turn events, which open and close
-- a session's turns in the idle schedule and in the MCP choice at once, between the edits of its page
-- and of the servers' settings.
use dsh_yawn.Base.{ℕ, ◌+◌, String, Bool, true, false, List, [], ◌∷◌, Option}
use dsh_yawn.Exec.{Error}
use dsh_yawn.Idle.{IdleSchedule, mark_active, is_turn_live, Event}
use dsh_yawn.Idle
use dsh_yawn.McpChoice.{
  McpServerEntry, McpServerView, McpChoice, begin_turn, end_turn, freeze, set, hidden,
  SessionHiddenServers,
}

pub record Manager (E : Type 0) : Type 0 where
  pub idle : IdleSchedule
  pub choice : McpChoice E
  pub entries : List McpServerEntry
  pub views : List McpServerView

-- What happens to the host: `turn/start` with its turn number, `turn/end`, a list that a session's
-- page sends, the servers' settings saved, and what else moves the idle schedule.
pub data HostEvent : Type 0 where
  turn_started : String → ℕ → HostEvent
  turn_ended : String → HostEvent
  page_sent : String → List String → HostEvent
  servers_saved : List McpServerEntry → HostEvent
  became_active : String → HostEvent

-- `if (this.mcpChoice.endTurn(sessionId)) this.ctx.emit(...)`
unfoldable pub announce : {E : Type 0} → Bool × McpChoice E → McpChoice E
announce (true, c) = record c { changes = c.changes + 1 }
announce (false, c) = c

module _ {E : Type 0} (write : E → Option Error × E) (idle_ms_for : String → ℕ) where
  unfoldable pub start_turn : Manager E → String → ℕ → Manager E
  start_turn m id turn = record m {
    idle = Idle.begin_turn m.idle id;
    choice = begin_turn m.entries (freeze m.entries write m.choice id turn) id;
  }

  unfoldable pub finish_turn : Manager E → String → Manager E
  finish_turn m id =
      let idle = Idle.end_turn idle_ms_for m.idle id in
      record m {
        idle = idle;
        choice = announce (end_turn m.entries (is_turn_live idle id) m.choice id);
      }

  unfoldable pub send_list : Manager E → String → List String → Manager E
  send_list m id names = record m {
    choice = (set m.entries write (is_turn_live m.idle id) m.views m.choice id names).1;
  }

  unfoldable pub react : Manager E → HostEvent → Manager E
  react m (turn_started id turn) = start_turn m id turn
  react m (turn_ended id) = finish_turn m id
  react m (page_sent id names) = send_list m id names
  react m (servers_saved entries) = record m { entries = entries }
  react m (became_active id) = record m { idle = mark_active m.idle id }

  unfoldable pub react_all : Manager E → List HostEvent → Manager E
  react_all m [] = m
  react_all m (e ∷ es) = react_all (react m e) es

-- What the tool mask and the prompt sections of a session's agents read.
unfoldable pub hidden_now : {E : Type 0} → Manager E → String → SessionHiddenServers
hidden_now m id = hidden m.entries (is_turn_live m.idle id) m.choice id
