-- ===== src/Examples/Parts.antt =====
-- Runs of the parts that a session is served with.
use dsh_yawn.Base.{ℕ, ◌≡◌, String, ◌&&◌, List, [], ◌∷◌, eqb, leb}
use dsh_yawn.Idle.{
  Timer, Event, active, armed, turn_begun, turn_ended, disposed, tried, answered, failed, fresh,
  level, is_turn_live, guard, schedule, end_turn, after_tick, cancel, mark_active, begin_turn,
}
use dsh_yawn.Idle
use dsh_yawn.Idle.Turns.{open_turns, times_active, guard-run}

abbrev delay : String → ℕ
delay id = 300

-- Two overlapping turns of `s`, one of them closed, with an activity in between.
abbrev overlapping : List Event
overlapping = turn_begun "s" ∷ active "s" ∷ turn_begun "s" ∷ turn_ended "s" ∷ []

guard-run_example :
    guard (Idle.run delay fresh overlapping) "s" 1
    ≡ (eqb (times_active "s" 0 overlapping) 1 && leb (open_turns "s" 0 overlapping) 0)
guard-run_example = guard-run delay "s" 1 overlapping
