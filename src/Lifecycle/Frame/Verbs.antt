-- ===== src/Lifecycle/Frame/Verbs.antt =====
-- The three verbs of the state machine keep every local condition of their session.
use dsh_yawn.Base.{ℕ, ◌≡◌, refl, String, Bool, true, false, Option, none, some}
use dsh_yawn.Exec.{Result, Exec, gets}
use dsh_yawn.Exec.Hoare.{
  Keeps, Keeps-pure, Keeps-raise, Keeps-gets, Keeps-bind, Keeps-if, Keeps-bind_fact, Ensures,
  Ensures-gets,
}
use dsh_yawn.Records.{SessionRecord, running, hibernated, checkpointed, base_of}
use dsh_yawn.Store.{get_record}
use dsh_yawn.World.{Client, World}
use dsh_yawn.Lifecycle.{Deps}
use dsh_yawn.Lifecycle.Machine.{
  start, reclaim_then, react_start, suspend, release_found, ensure_running, hibernate,
  release_guarded, release,
}
use dsh_yawn.Lifecycle.Frame.Starting.{
  Keeps-provision_fresh, Keeps-serve_running, Keeps-wake_or_replace, Keeps-restore,
}
use dsh_yawn.Lifecycle.Frame.Stopping.{
  Keeps-reclaim_expired, Keeps-suspend_running, Keeps-release_session,
}
use dsh_yawn.Lifecycle.Frame.{IsLocal}

module _ {E : Type 0} {d : Deps E} {P : World E → Type 0} {id : String} (loc : IsLocal d P id) where
  -- The record that was found is none, or the session's own.
  abbrev Own : Option SessionRecord → Type 0
  Own none = Unit
  Own (some r) = (base_of r).session_id ≡ id

  Own-of :
      (w : World E) (found : Option SessionRecord) → P w → get_record w.store id ≡ found → Own found
  Own-of w none p e = tt
  Own-of w (some r) p e = loc.owned w r p e

  stored-Own : Ensures P (gets (λ (w : World E). get_record w.store id)) (λ found _. Own found)
  stored-Own = Ensures-gets _ _ (λ w p. Own-of w (get_record w.store id) p refl)

  Keeps-start :
      (repository : E → Result String × E) (found : Option SessionRecord)
      → Own found
      → Keeps P (start d id repository found)
  unfolding start
  Keeps-start repository none own = Keeps-provision_fresh loc repository
  Keeps-start repository (some (running r)) own = Keeps-serve_running loc r own
  Keeps-start repository (some (hibernated r deadline)) own = Keeps-wake_or_replace loc r own _ _
  Keeps-start repository (some (checkpointed b saved deadline)) own = Keeps-restore loc b saved own

  Keeps-reclaim_then :
      (found : Option SessionRecord) (rest : Exec (World E) Client)
      → Own found
      → Keeps P rest
      → Keeps P (reclaim_then d found rest)
  unfolding reclaim_then
  Keeps-reclaim_then none rest own k = k
  Keeps-reclaim_then (some r) rest own k = Keeps-bind (Keeps-reclaim_expired loc r own) (λ _. k)

  Keeps-react_start :
      (fuel : ℕ) (repository : E → Result String × E) → Keeps P (react_start d fuel id repository)
  unfolding react_start
  Keeps-react_start ℕ.zero repository = Keeps-raise _
  Keeps-react_start (ℕ.suc fuel) repository =
      Keeps-bind_fact Own (Keeps-gets _) stored-Own (λ found own. Keeps-bind (Keeps-gets _) (λ time.
        Keeps-if _ (Keeps-reclaim_then found _ own (Keeps-react_start fuel repository))
          (Keeps-start repository found own)))

  pub Keeps-ensure_running :
      (repository : E → Result String × E) → Keeps P (ensure_running d id repository)
  unfolding ensure_running
  Keeps-ensure_running repository = Keeps-react_start 2 repository

  Keeps-suspend : (found : Option SessionRecord) → Own found → Keeps P (suspend d found)
  unfolding suspend
  Keeps-suspend (some (running r)) own = Keeps-suspend_running loc r own
  Keeps-suspend none own = Keeps-pure tt
  Keeps-suspend (some (hibernated r deadline)) own = Keeps-pure tt
  Keeps-suspend (some (checkpointed b saved deadline)) own = Keeps-pure tt

  pub Keeps-hibernate : (guard : Option Bool) → Keeps P (hibernate d id guard)
  unfolding hibernate
  Keeps-hibernate guard =
      Keeps-if _
        (Keeps-bind_fact Own (Keeps-gets _) stored-Own
          (λ found own. Keeps-bind (Keeps-suspend found own) (λ _. Keeps-pure true)))
        (Keeps-pure false)

  Keeps-release_found : (found : Option SessionRecord) → Own found → Keeps P (release_found d found)
  unfolding release_found
  Keeps-release_found none own = Keeps-pure tt
  Keeps-release_found (some r) own = Keeps-release_session loc r own

  pub Keeps-release : (guard : Option Bool) → Keeps P (release d id guard)
  unfolding release release_guarded
  Keeps-release guard =
      Keeps-bind_fact Own (Keeps-gets _) stored-Own
        (λ found own. Keeps-if _ (Keeps-release_found found own) (Keeps-pure tt))
