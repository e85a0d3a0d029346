-- ===== src/Lifecycle/Served/Answer.antt =====
-- Every way in which `ensureRunning` returns leaves a running record and a cached runner.
use dsh_yawn.Base.{ℕ, ◌≡◌, refl, String, Option, none, some}
use dsh_yawn.Exec.{Result, ok, Exec}
use dsh_yawn.Exec.Hoare.{
  Ensures, Keeps-gets, Ensures-bind, Ensures-after, Ensures-if, Ensures-gets, Ensures-raise,
}
use dsh_yawn.Exec.Outcomes.{Ensures-from, Ensures-answer}
use dsh_yawn.Records.{SessionRecord, running, hibernated, checkpointed}
use dsh_yawn.Store.{get_record}
use dsh_yawn.World.{Client, World}
use dsh_yawn.Lifecycle.{Deps}
use dsh_yawn.Lifecycle.Machine.{start, reclaim_then, react_start, ensure_running}
use dsh_yawn.Lifecycle.Isolation.{
  KeyedRecords, Keyed, kept-Keyed, Apart-IsLocal, Own, Stored, Ensures-Own,
}
use dsh_yawn.Lifecycle.Frame.Stopping.{Keeps-reclaim_expired}
use dsh_yawn.Lifecycle.Served.{Live, provision_fresh-Live, wake_or_replace-Live, serve_running-Live}
use dsh_yawn.Lifecycle.Served.Restored.{restore-Live}

module _ {E : Type 0} (d : Deps E) (id : String) where
  start-Live :
      (repository : E → Result String × E) (found : Option SessionRecord)
      → Own id found
      → Ensures (Stored id found) (start d id repository found) (Live id)
  unfolding start
  start-Live repository none own = Ensures-from (λ w p. tt) (provision_fresh-Live d repository)
  start-Live repository (some (running r)) own =
      Ensures-from (λ w p. record { who = r; is_stored = p.1 }) (serve_running-Live d r own)
  start-Live repository (some (hibernated r deadline)) own =
      Ensures-from (λ w p. tt) (wake_or_replace-Live d r own _ _)
  start-Live repository (some (checkpointed b saved deadline)) own =
      Ensures-from (λ w p. tt) (restore-Live d b saved own)

  reclaim_then-Live :
      (found : Option SessionRecord) (rest : Exec (World E) Client)
      → Own id found
      → Ensures Keyed rest (Live id)
      → Ensures Keyed (reclaim_then d found rest) (Live id)
  unfolding reclaim_then
  reclaim_then-Live none rest own k = k
  reclaim_then-Live (some r) rest own k =
      Ensures-after (kept-Keyed (λ w0. Keeps-reclaim_expired (Apart-IsLocal w0 id d) r own))
        (λ _. k)

  react_start-Live :
      (fuel : ℕ) (repository : E → Result String × E)
      → Ensures Keyed (react_start d fuel id repository) (Live id)
  unfolding react_start get_record
  react_start-Live ℕ.zero repository = Ensures-raise _ _
  react_start-Live (ℕ.suc fuel) repository =
      Ensures-bind (Stored id) (Ensures-gets _ _ (λ w k. (k, refl))) (λ found.
        Ensures-after (Keeps-gets _) (λ time.
          Ensures-if _
            (Ensures-Own id found (λ own.
              Ensures-from (λ w p. p.0)
                (reclaim_then-Live found _ own (react_start-Live fuel repository))))
            (Ensures-Own id found (λ own. start-Live repository found own))))

  -- If every stored record names its session, an `ensureRunning` that returns a runner leaves the
  -- session with a running record, and the runner that it returns is the one cached for the session.
  pub ensure_running-Live :
      (repository : E → Result String × E) (w : World E) (c : Client)
      → KeyedRecords w.store.state.sessions
      → (ensure_running d id repository w).0 ≡ ok c
      → Live id c (ensure_running d id repository w).1
  unfolding ensure_running
  ensure_running-Live repository w c keyed e =
      Ensures-answer (react_start-Live 2 repository) w c keyed e
