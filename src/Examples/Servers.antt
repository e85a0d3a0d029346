-- ===== src/Examples/Servers.antt =====
-- The MCP choice over turns that overlap.
use dsh_yawn.Base.{ℕ, ◌≡◌, refl, true, false, none, List, [], ◌∷◌, Option}
use dsh_yawn.Dict.{get}
use dsh_yawn.Exec.{Error}
use dsh_yawn.Idle.{turns}
use dsh_yawn.McpChoice.{McpServerEntry}
use dsh_yawn.McpChoice.Edits.{own_list}
use dsh_yawn.McpChoice.Turns.{
  Manager, HostEvent, turn_started, turn_ended, page_sent, react_all, hidden_now,
}
use dsh_yawn.McpChoice.Snapshot.{follow_all, visible, react_all-hidden}
use dsh_yawn.Examples.{store_of, box}
use dsh_yawn.Records.{running}

abbrev wiki : McpServerEntry
wiki = record { server_name = "wiki"; enabled = true; off_by_default = true }

abbrev search_server : McpServerEntry
search_server = record { server_name = "search"; enabled = true; off_by_default = false }

abbrev manager : Manager ℕ
manager = record {
  idle = record { timers = []; activity = []; live_turns = [] };
  choice = record {
    live = [];
    store = store_of (running box);
    changes = 0;
    warnings = [];
    env = 0;
  };
  entries = wiki ∷ search_server ∷ [];
  views = [];
}

abbrev write : ℕ → Option Error × ℕ
write e = (none, e)

-- Two turns of the session overlap; its page hides another server meanwhile.
abbrev overlapping : List HostEvent
overlapping =
    turn_started "s" 1 ∷ page_sent "s" ("search" ∷ []) ∷ turn_started "s" 2 ∷ turn_ended "s" ∷ []

manager-quiet : turns manager.idle "s" ≡ 0
unfolding get
manager-quiet = refl

manager-empty : get manager.choice.live "s" ≡ none
unfolding get
manager-empty = refl

react_all-hidden_example :
    (hidden_now (react_all write (λ id. 5) manager overlapping) "s").servers
    ≡ visible (
        follow_all "s" manager.entries
          (record { open_turns = 0; own = own_list manager.choice "s"; snapshot = [] })
          overlapping)
react_all-hidden_example =
    react_all-hidden write (λ id. 5) "s" manager overlapping manager-quiet manager-empty
