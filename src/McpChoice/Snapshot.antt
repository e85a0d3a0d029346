-- ===== src/McpChoice/Snapshot.antt =====
-- What one session hides, told from the host's events alone: its open turns, its own list and the
-- list that its open turns run with.
use dsh_yawn.Base.{
  ℕ, ◌+◌, ◌-◌, ◌≡◌, refl, ap, String, Bool, true, false, Option, none, some, List, [], ◌∷◌, leb,
  ltb, or_default, if◌then◌else◌, arith, ◌==◌, eq_iff, ◌∙◌,
}
use dsh_yawn.Dict.{get}
use dsh_yawn.Exec.{Error}
use dsh_yawn.Idle.{IdleSchedule, turns, is_turn_live, turn_begun, turn_ended, active}
use dsh_yawn.Idle
use dsh_yawn.Idle.Turns.{step-turns}
use dsh_yawn.McpChoice.{
  McpServerEntry, McpChoice, chosen, defaults, sorted_names, first_unknown, end_turn, freeze,
  hidden, hiding,
}
use dsh_yawn.McpChoice.Edits.{
  own_list, begin_turn-store, begin_turn-live, end_turn-store, end_turn-live, freeze-own,
  freeze-live, set-own, set-live,
}
use dsh_yawn.McpChoice.Turns.{
  Manager, HostEvent, turn_started, turn_ended, page_sent, servers_saved, became_active, announce,
  start_turn, finish_turn, send_list, react, react_all, hidden_now,
}

pub record SessionChoice : Type 0 where
  pub open_turns : ℕ
  pub own : Option (List String)
  pub snapshot : List String

-- The first of the overlapping turns takes the snapshot; a session that never chose takes what its
-- first turn found.
abbrev pub started : List McpServerEntry → ℕ → SessionChoice → SessionChoice
started entries turn s =
    let own = or_default s.own (if ltb 1 turn then [] else defaults entries) in
    record {
      open_turns = s.open_turns + 1;
      own = some own;
      snapshot = if leb s.open_turns 0 then own else s.snapshot;
    }

abbrev pub sent : List McpServerEntry → List String → SessionChoice → SessionChoice
sent entries names s = elim (first_unknown entries names) [
  | some x ↦ s
  | none ↦ record s { own = some (sorted_names names) }
]

abbrev pub follow : String → List McpServerEntry → SessionChoice → HostEvent → SessionChoice
follow id entries s (turn_started j turn) = if j == id then started entries turn s else s
follow id entries s (turn_ended j) =
    if j == id then record s { open_turns = s.open_turns - 1 } else s
follow id entries s (page_sent j names) = if j == id then sent entries names s else s
follow id entries s (servers_saved new_entries) = s
follow id entries s (became_active j) = s

abbrev pub entries_after : List McpServerEntry → HostEvent → List McpServerEntry
entries_after entries (servers_saved new_entries) = new_entries
entries_after entries _ = entries

abbrev pub follow_all :
    String
    → List McpServerEntry
    → SessionChoice
    → List HostEvent
    → List McpServerEntry × SessionChoice
follow_all id entries s [] = (entries, s)
follow_all id entries s (e ∷ es) =
    follow_all id (entries_after entries e) (follow id entries s e) es

-- While a turn is open, its snapshot; between turns, the session's own list or the default.
abbrev pub visible : List McpServerEntry × SessionChoice → List String
visible (entries, s) =
    if leb s.open_turns 0 then or_default s.own (defaults entries) else s.snapshot

module _ {E : Type 0} where
  record Follows (id : String) (m : Manager E) (s : SessionChoice) : Type 0 where
    counted : turns m.idle id ≡ s.open_turns
    owned : own_list m.choice id ≡ s.own
    held : get m.choice.live id ≡ (if leb s.open_turns 0 then none else some s.snapshot)

  announce-kept :
      (r : Bool × McpChoice E) → ((announce r).store ≡ r.1.store) × ((announce r).live ≡ r.1.live)
  unfolding announce
  announce-kept (true, c) = (refl, refl)
  announce-kept (false, c) = (refl, refl)

  module _ (write : E → Option Error × E) (idle_ms_for : String → ℕ) where
    start_turn-Follows :
        (id j : String) (turn : ℕ) (m : Manager E) (s : SessionChoice)
        → Follows id m s
        → Follows id
            (start_turn write idle_ms_for m j turn)
            (if j == id then started m.entries turn s else s)
    unfolding start_turn is_turn_live Idle.step chosen
    start_turn-Follows id j turn m s f = record {
      counted = ground (arith, f.counted, step-turns idle_ms_for m.idle id (turn_begun j));
      owned = ground (
        arith,
        f.owned,
        eq_iff j id,
        begin_turn-store m.entries (freeze m.entries write m.choice j turn) j,
        freeze-own m.entries write m.choice j id turn,
      );
      held = ground (
        arith,
        f.held,
        f.owned,
        eq_iff j id,
        freeze-live m.entries write m.choice j turn,
        freeze-own m.entries write m.choice j id turn,
        begin_turn-live m.entries (freeze m.entries write m.choice j turn) j id,
      );
    }

    finish_turn-Follows :
        (id j : String) (m : Manager E) (s : SessionChoice)
        → Follows id m s
        → Follows id
            (finish_turn write idle_ms_for m j)
            (if j == id then record s { open_turns = s.open_turns - 1 } else s)
    unfolding finish_turn is_turn_live Idle.step chosen
    finish_turn-Follows id j m s f = record {
      counted = ground (arith, f.counted, step-turns idle_ms_for m.idle id (turn_ended j));
      owned = ground (
        arith,
        f.owned,
        announce-kept
            (end_turn m.entries (is_turn_live (Idle.end_turn idle_ms_for m.idle j) j) m.choice j),
        end_turn-store m.entries (is_turn_live (Idle.end_turn idle_ms_for m.idle j) j) m.choice j,
      );
      held = ground (
        arith,
        f.held,
        f.counted,
        eq_iff j id,
        step-turns idle_ms_for m.idle id (turn_ended j),
        announce-kept
            (end_turn m.entries (is_turn_live (Idle.end_turn idle_ms_for m.idle j) j) m.choice j),
        end_turn-live m.entries (is_turn_live (Idle.end_turn idle_ms_for m.idle j) j) m.choice j id,
      );
    }

    send_list-Follows :
        (id j : String) (names : List String) (m : Manager E) (s : SessionChoice)
        → Follows id m s
        → Follows id
            (send_list write idle_ms_for m j names)
            (if j == id then sent m.entries names s else s)
    unfolding send_list is_turn_live
    send_list-Follows id j names m s f = record {
      counted = ground (arith, f.counted);
      owned = ground (
        arith,
        f.owned,
        eq_iff j id,
        set-own m.entries write (is_turn_live m.idle j) m.views m.choice j id names,
      );
      held = ground (
        arith,
        f.held,
        f.counted,
        eq_iff j id,
        set-live m.entries write (is_turn_live m.idle j) m.views m.choice j id names,
      );
    }

    react-Follows :
        (id : String) (m : Manager E) (s : SessionChoice) (e : HostEvent)
        → Follows id m s
        → Follows id (react write idle_ms_for m e) (follow id m.entries s e)
    unfolding react Idle.mark_active Idle.step
    react-Follows id m s (turn_started j turn) f = start_turn-Follows id j turn m s f
    react-Follows id m s (turn_ended j) f = finish_turn-Follows id j m s f
    react-Follows id m s (page_sent j names) f = send_list-Follows id j names m s f
    react-Follows id m s (servers_saved entries) f = record {
      counted = f.counted;
      owned = f.owned;
      held = f.held;
    }
    react-Follows id m s (became_active j) f = record {
      counted = step-turns idle_ms_for m.idle id (active j) ∙ f.counted;
      owned = f.owned;
      held = f.held;
    }

    react-entries :
        (m : Manager E) (e : HostEvent)
        → (react write idle_ms_for m e).entries ≡ entries_after m.entries e
    unfolding react start_turn finish_turn send_list
    react-entries m (turn_started j turn) = refl
    react-entries m (turn_ended j) = refl
    react-entries m (page_sent j names) = refl
    react-entries m (servers_saved entries) = refl
    react-entries m (became_active j) = refl

    visible_now :
        (id : String) (m : Manager E) (s : SessionChoice)
        → Follows id m s
        → (hidden_now m id).servers ≡ visible (m.entries, s)
    unfolding hidden_now hidden is_turn_live chosen hiding
    visible_now id m s f = ground (arith, f.held, f.owned, f.counted)

    react_all-followed :
        (id : String) (m : Manager E) (s : SessionChoice) (es : List HostEvent)
        → Follows id m s
        → (hidden_now (react_all write idle_ms_for m es) id).servers
          ≡ visible (follow_all id m.entries s es)
    unfolding react_all
    react_all-followed id m s [] f = visible_now id m s f
    react_all-followed id m s (e ∷ es) f =
        react_all-followed id (react write idle_ms_for m e) (follow id m.entries s e) es
          (react-Follows id m s e f)
        ∙ ap (λ x. visible (follow_all id x (follow id m.entries s e) es)) (react-entries m e)

    -- From a moment at which a session has no open turn and no snapshot, and whatever turns, lists
    -- of pages and settings follow for this session and the others, the servers that it hides are
    -- those of `visible`: while one of its turns is open, what the first of the overlapping turns
    -- started with; otherwise its own list, or the default as long as it has none.
    pub react_all-hidden :
        (id : String) (m : Manager E) (es : List HostEvent)
        → turns m.idle id ≡ 0
        → get m.choice.live id ≡ none
        → (hidden_now (react_all write idle_ms_for m es) id).servers
          ≡ visible (
              follow_all id m.entries
                (record { open_turns = 0; own = own_list m.choice id; snapshot = [] })
                es)
    react_all-hidden id m es quiet empty =
        react_all-followed id m _ es (record { counted = quiet; owned = refl; held = empty })
