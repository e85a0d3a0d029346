-- ===== src/Lifecycle/Rounds.antt =====
-- `react` calls itself at most once: after an expired record was reclaimed there is none.
use dsh_yawn.Base.{
  ℕ, suc, ◌≡◌, refl, sym, ◌∙◌, String, Bool, true, false, Option, none, some, if◌then◌else◌,
}
use dsh_yawn.Dict.{get}
use dsh_yawn.Exec.{Result, Exec, ◌>>=◌, gets}
use dsh_yawn.Exec.Outcomes.{bind-agree}
use dsh_yawn.Records.{SessionRecord}
use dsh_yawn.Store.{get_record}
use dsh_yawn.World.{World}
use dsh_yawn.Lifecycle.{Deps}
use dsh_yawn.Lifecycle.Starting.{provision_fresh}
use dsh_yawn.Lifecycle.Machine.{expired_now, start, reclaim_then, react_start}
use dsh_yawn.Lifecycle.Isolation.{KeyedRecords, Own, Stored-Own}
use dsh_yawn.Lifecycle.Forgotten.{Absent, reclaim_expired-Forgotten}

module _ {E : Type 0} (d : Deps E) (id : String) (repository : E → Result String × E) where
  react_start-Absent :
      (n : ℕ) (w : World E)
      → Absent id w
      → react_start d (suc n) id repository w ≡ provision_fresh d id repository w
  unfolding react_start start expired_now get_record gets ◌>>=◌
  react_start-Absent n w absent = rw absent refl

  if-agree :
      {A : Type 0} (b : Bool) (m n k : Exec (World E) A) (w : World E)
      → m w ≡ n w
      → (if b then m else k) w ≡ (if b then n else k) w
  if-agree true m n k w e = e
  if-agree false m n k w e = refl

  reclaim_then-agree :
      (n : ℕ) (found : Option SessionRecord) (w : World E)
      → Own id found
      → (if expired_now d found (d.host.now w.env)
            then reclaim_then d found (react_start d (suc n) id repository)
            else start d id repository found)
          w
        ≡ (if expired_now d found (d.host.now w.env)
              then reclaim_then d found (react_start d 1 id repository)
              else start d id repository found)
            w
  unfolding expired_now reclaim_then
  reclaim_then-agree n none w own = refl
  reclaim_then-agree n (some r) w own =
      if-agree (expired_now d (some r) (d.host.now w.env))
        (reclaim_then d (some r) (react_start d (suc n) id repository))
        (reclaim_then d (some r) (react_start d 1 id repository)) (start d id repository (some r)) w
        (bind-agree w (reclaim_expired-Forgotten d id r own) tt (λ _ w' gone.
          react_start-Absent n w' gone.no_record ∙ sym (react_start-Absent 0 w' gone.no_record)))

  -- If every stored record names its session, `react` for `ensureRunning` does the same on any fuel
  -- from two on: the call that it makes to itself is never followed by another.
  pub react_start-two :
      (n : ℕ) (w : World E)
      → KeyedRecords w.store.state.sessions
      → react_start d (suc (suc n)) id repository w ≡ react_start d 2 id repository w
  unfolding react_start get_record gets ◌>>=◌
  react_start-two n w keyed =
      reclaim_then-agree n (get w.store.state.sessions id) w
        (Stored-Own id (get w.store.state.sessions id) w (keyed, refl))
