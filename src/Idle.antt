-- ===== src/Idle.antt =====
-- control-plane/src/sandbox/manager/idle.ts: one idle countdown per session. A Node timer is the
-- entry that `timers` holds for it: the activity level it was armed at and its delay. Its callback
-- is the event `tried`, with what the suspend attempt answered; a fired timer keeps its entry, as
-- in the source, until the next `cancel`.
pub mod Turns
use dsh_yawn.Base.{
  ℕ, ◌+◌, ◌-◌, ◌≡◌, String, Bool, true, false, not, ◌&&◌, List, [], ◌∷◌, leb, eqb, or_default,
  if◌then◌else◌,
}
use dsh_yawn.Dict.{Dict, get, put, delete, has}

pub record Timer : Type 0 where
  pub expected : ℕ
  pub delay : ℕ

pub record IdleSchedule : Type 0 where
  pub timers : Dict Timer
  pub activity : Dict ℕ
  pub live_turns : Dict ℕ

unfoldable pub fresh : IdleSchedule
fresh = record { timers = []; activity = []; live_turns = [] }

-- `this.activity.get(sessionId) ?? 0`
abbrev pub level : IdleSchedule → String → ℕ
level s id = or_default (get s.activity id) 0

-- `this.liveTurns.get(sessionId) ?? 0`
abbrev pub turns : IdleSchedule → String → ℕ
turns s id = or_default (get s.live_turns id) 0

pub cancel : IdleSchedule → String → IdleSchedule
cancel s id = record s { timers = delete s.timers id }

unfoldable pub mark_active : IdleSchedule → String → IdleSchedule
unfolding cancel
mark_active s id =
    let cancelled = cancel s id in
    record cancelled { activity = put s.activity id (level cancelled id + 1) }

unfoldable pub begin_turn : IdleSchedule → String → IdleSchedule
begin_turn s id = record s { live_turns = put s.live_turns id (turns s id + 1) }

unfoldable pub is_turn_live : IdleSchedule → String → Bool
is_turn_live s id = not (leb (turns s id) 0)

pub dispose : IdleSchedule → IdleSchedule
dispose s = record s { timers = [] }

-- The guard that `tick` hands to `hibernate`, which runs it under the session's lock.
pub guard : IdleSchedule → String → ℕ → Bool
guard s id expected = eqb (level s id) expected && not (has s.live_turns id)

-- What a suspend attempt came to: the answer of `hibernate`, or an error on the way.
pub data Attempt : Type 0 where
  answered : Bool → Attempt
  failed : String → Attempt

pub data Event : Type 0 where
  active armed turn_begun turn_ended : String → Event
  disposed : Event
  tried : String → ℕ → Attempt → Event

-- `idle_ms_for` is the hook that the lifecycle's owner supplies.
module _ (idle_ms_for : String → ℕ) where
  pub schedule : IdleSchedule → String → IdleSchedule
  unfolding cancel
  schedule s id =
      let cancelled = cancel s id in
      record cancelled {
        timers =
            put cancelled.timers id
              (record { expected = level cancelled id; delay = idle_ms_for id });
      }

  -- `remaining <= 0` of the source is `turns ≤ 1` before the decrement.
  unfoldable pub end_turn : IdleSchedule → String → IdleSchedule
  unfolding schedule
  end_turn s id =
      let closed =
        if leb (turns s id) 1
        then record s { live_turns = delete s.live_turns id }
        else record s { live_turns = put s.live_turns id (turns s id - 1) } in
      schedule closed id

  -- The rest of `tick` after `hibernate`, and the `catch` of the timer's callback.
  pub after_tick : IdleSchedule → String → ℕ → Attempt → IdleSchedule
  unfolding schedule
  after_tick s id expected (answered suspended) =
      if not suspended && has s.live_turns id then schedule s id else s
  after_tick s id expected (failed message) = if eqb (level s id) expected then schedule s id else s

  unfoldable pub step : IdleSchedule → Event → IdleSchedule
  unfolding mark_active schedule begin_turn end_turn dispose after_tick
  step s (active id) = mark_active s id
  step s (armed id) = schedule s id
  step s (turn_begun id) = begin_turn s id
  step s (turn_ended id) = end_turn s id
  step s disposed = dispose s
  step s (tried id expected attempt) = after_tick s id expected attempt

  unfoldable pub run : IdleSchedule → List Event → IdleSchedule
  run s [] = s
  run s (e ∷ es) = run (step s e) es
