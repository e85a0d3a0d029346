-- ===== src/Idle/Turns.antt =====
-- What a history of events says of the turn count and the activity level, and so of the guard.
use dsh_yawn.Base.{
  ℕ, ◌+◌, ◌-◌, ◌≡◌, refl, ap, ◌≢◌, ◌∙◌, String, not, ◌&&◌, some, List, [], ◌∷◌, arith, eqb, leb,
  if◌then◌else◌, ◌==◌, eq_iff,
}
use dsh_yawn.Dict.{get, get-put, get-delete, get-empty}
use dsh_yawn.Idle.{
  IdleSchedule, Event, active, armed, turn_begun, turn_ended, disposed, tried, answered, failed,
  fresh, level, turns, is_turn_live, guard, step, run,
}

-- The open turns of one session after a history: a close with none open changes nothing.
abbrev pub open_turns : String → ℕ → List Event → ℕ
open_turns id n [] = n
open_turns id n (turn_begun j ∷ es) = open_turns id (if j == id then n + 1 else n) es
open_turns id n (turn_ended j ∷ es) = open_turns id (if j == id then n - 1 else n) es
open_turns id n (_ ∷ es) = open_turns id n es

-- How often a session was active in a history.
abbrev pub times_active : String → ℕ → List Event → ℕ
times_active id n [] = n
times_active id n (active j ∷ es) = times_active id (if j == id then n + 1 else n) es
times_active id n (_ ∷ es) = times_active id n es

open_turns-cons :
    (id : String) (n : ℕ) (e : Event) (es : List Event)
    → open_turns id (open_turns id n (e ∷ [])) es ≡ open_turns id n (e ∷ es)
open_turns-cons id n (turn_begun j) es = refl
open_turns-cons id n _ es = refl

times_active-cons :
    (id : String) (n : ℕ) (e : Event) (es : List Event)
    → times_active id (times_active id n (e ∷ [])) es ≡ times_active id n (e ∷ es)
times_active-cons id n (active j) es = refl
times_active-cons id n _ es = refl

fresh-turns : (id : String) → turns fresh id ≡ 0
unfolding fresh
fresh-turns id = ground (arith, get-empty {V = ℕ} id)

fresh-level : (id : String) → level fresh id ≡ 0
unfolding fresh
fresh-level id = ground (arith, get-empty {V = ℕ} id)

module _ (idle_ms_for : String → ℕ) where
  pub step-turns :
      (s : IdleSchedule) (id : String) (e : Event)
      → turns (step idle_ms_for s e) id ≡ open_turns id (turns s id) (e ∷ [])
  unfolding step
  step-turns s id (turn_begun j) =
      ground (arith, get-put s.live_turns j id (turns s j + 1), eq_iff j id)
  step-turns s id (turn_ended j) =
      ground (
        arith,
        get-put s.live_turns j id (turns s j - 1),
        get-delete s.live_turns j id,
        eq_iff j id,
      )
  step-turns s id (tried j n (answered b)) = ground arith
  step-turns s id (tried j n (failed m)) = ground arith
  step-turns s id _ = refl

  step-level :
      (s : IdleSchedule) (id : String) (e : Event)
      → level (step idle_ms_for s e) id ≡ times_active id (level s id) (e ∷ [])
  unfolding step
  step-level s id (active j) = ground (arith, get-put s.activity j id (level s j + 1), eq_iff j id)
  step-level s id (turn_ended j) = ground arith
  step-level s id (tried j n (answered b)) = ground arith
  step-level s id (tried j n (failed m)) = ground arith
  step-level s id _ = refl

  run-turns :
      (s : IdleSchedule) (id : String) (es : List Event)
      → turns (run idle_ms_for s es) id ≡ open_turns id (turns s id) es
  unfolding run
  run-turns s id [] = refl
  run-turns s id (e ∷ es) =
      run-turns (step idle_ms_for s e) id es
      ∙ ap (λ n. open_turns id n es) (step-turns s id e)
      ∙ open_turns-cons id (turns s id) e es

  run-level :
      (s : IdleSchedule) (id : String) (es : List Event)
      → level (run idle_ms_for s es) id ≡ times_active id (level s id) es
  unfolding run
  run-level s id [] = refl
  run-level s id (e ∷ es) =
      run-level (step idle_ms_for s e) id es
      ∙ ap (λ n. times_active id n es) (step-level s id e)
      ∙ times_active-cons id (level s id) e es

  -- An entry of `liveTurns` is never 0, so that `has` and a positive count are one test.
  abbrev pub IsCounted : IdleSchedule → Type 0
  IsCounted s = (id : String) → get s.live_turns id ≢ some 0

  step-IsCounted : (s : IdleSchedule) (e : Event) → IsCounted s → IsCounted (step idle_ms_for s e)
  unfolding step
  step-IsCounted s (turn_begun j) v id =
      ground (arith, v id, get-put s.live_turns j id (turns s j + 1))
  step-IsCounted s (turn_ended j) v id =
      ground (arith, v id, get-put s.live_turns j id (turns s j - 1), get-delete s.live_turns j id)
  step-IsCounted s (tried j n (answered b)) v id = ground (arith, v id)
  step-IsCounted s (tried j n (failed m)) v id = ground (arith, v id)
  step-IsCounted s (active j) v id = v id
  step-IsCounted s (armed j) v id = v id
  step-IsCounted s disposed v id = v id

  run-IsCounted :
      (s : IdleSchedule) (es : List Event) → IsCounted s → IsCounted (run idle_ms_for s es)
  unfolding run
  run-IsCounted s [] v = v
  run-IsCounted s (e ∷ es) v = run-IsCounted (step idle_ms_for s e) es (step-IsCounted s e v)

  fresh-IsCounted : IsCounted fresh
  unfolding fresh
  fresh-IsCounted id = ground (arith, get-empty {V = ℕ} id)

  -- After any history of a new schedule, a session counts as live exactly while the history has
  -- opened more of its turns than it has closed since.
  pub is_turn_live-run :
      (id : String) (es : List Event)
      → is_turn_live (run idle_ms_for fresh es) id ≡ not (leb (open_turns id 0 es) 0)
  unfolding is_turn_live
  is_turn_live-run id es =
      ap (λ n. not (leb n 0))
        (run-turns fresh id es ∙ ap (λ n. open_turns id n es) (fresh-turns id))

  -- After any history of a new schedule, the guard of a countdown armed at level n lets the
  -- session suspend exactly if the session was active n times in all and has no open turn.
  pub guard-run :
      (id : String) (n : ℕ) (es : List Event)
      → guard (run idle_ms_for fresh es) id n
        ≡ (eqb (times_active id 0 es) n && leb (open_turns id 0 es) 0)
  unfolding guard
  guard-run id n es =
      let s = run idle_ms_for fresh es in
      ground (
        arith,
        run-turns fresh id es,
        run-level fresh id es,
        fresh-turns id,
        fresh-level id,
        run-IsCounted fresh es fresh-IsCounted id,
      )
