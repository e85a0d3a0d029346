-- ===== src/Lifecycle/Frame/Stopping.antt =====
-- The transitions that put a sandbox away keep every local condition.
use dsh_yawn.Base.{◌≡◌, String, Bool, true, false, Option, none, some}
use dsh_yawn.Exec.Hoare.{
  Keeps, keeps_rules, Keeps-pure, Keeps-raise, Keeps-gets, Keeps-lift, Keeps-bind, Keeps-if,
  Keeps-on_not_found,
}
use dsh_yawn.Records.{RunningRecord, SessionRecord, running, hibernated, checkpointed, base_of}
use dsh_yawn.Registry.{SandboxBackend}
use dsh_yawn.World.{Client, World}
use dsh_yawn.World.Rules.{IsInner, Keeps-outside, Keeps-outside_silent, Keeps-warn, Keeps-evict}
use dsh_yawn.Attachment.{client_for, detach}
use dsh_yawn.Attachment.Keeping.{Keeps-drop, Keeps-connect, Keeps-checkpoint, Keeps-detach}
use dsh_yawn.Lifecycle.{Deps, forget_session}
use dsh_yawn.Lifecycle.Stopping.{
  destroy_expired, reclaim_expired, hibernate_sandbox, reconnect, runner_for_checkpoint,
  warn_dropped, checkpoint_sandbox, put_away, suspend_running, destroy_released, release_owned,
  release_session,
}
use dsh_yawn.Lifecycle.Frame.{IsLocal, Keeps-call_hooks, Keeps-destroy_gone}

module _ {E : Type 0} {d : Deps E} {P : World E → Type 0} {id : String} (loc : IsLocal d P id) where
  abbrev inner : IsInner P id
  inner = loc.inner

  ruleset calls = (keeps_rules, Keeps-outside, Keeps-outside_silent, Keeps-warn)

  Keeps-destroy_expired : (r : SessionRecord) → Keeps P (destroy_expired d r)
  unfolding destroy_expired
  Keeps-destroy_expired (running r) = Keeps-pure tt
  Keeps-destroy_expired (checkpointed b c deadline) = Keeps-pure tt
  Keeps-destroy_expired (hibernated r deadline) =
      Keeps-bind (Keeps-lift _)
        (λ b. Keeps-bind (Keeps-outside inner _) (λ _. Keeps-drop d.host inner _))

  forget_at : (j : String) → j ≡ id → Keeps P (forget_session d j)
  forget_at j e = rw e loc.forget

  detach_at : (j : String) → j ≡ id → (sandbox : String) → Keeps P (detach d.host j sandbox)
  detach_at j e sandbox = rw e (Keeps-detach d.host inner sandbox)

  pub Keeps-reclaim_expired :
      (r : SessionRecord) → (base_of r).session_id ≡ id → Keeps P (reclaim_expired d r)
  unfolding reclaim_expired
  Keeps-reclaim_expired r own = rw own (Keeps-bind (Keeps-destroy_expired r) (λ _. loc.forget))

  module _ (r : RunningRecord) (own : r.base.session_id ≡ id) where
    Keeps-hibernate_sandbox : (b : SandboxBackend E) → Keeps P (hibernate_sandbox d r b)
    unfolding hibernate_sandbox client_for
    Keeps-hibernate_sandbox b = Keeps-bind (Keeps-gets _) (λ c.
        Keeps-bind (Keeps-call_hooks inner d _ _) (λ _. Keeps-bind (Keeps-gets _) (λ time.
          Keeps-bind (Keeps-outside inner _) (λ _.
            Keeps-bind (Keeps-outside inner _)
              (λ _. Keeps-bind (Keeps-gets _) (λ later. loc.set _ own tt))))))

    Keeps-reconnect :
        (b : SandboxBackend E) (cached : Option Client) → Keeps P (reconnect d r b cached)
    unfolding reconnect
    Keeps-reconnect b (some c) = Keeps-pure c
    Keeps-reconnect b none =
        Keeps-bind (Keeps-outside inner _)
          (λ healthy. Keeps-if healthy (Keeps-connect d.host inner r own) (Keeps-raise _))

    Keeps-runner_for_checkpoint : (b : SandboxBackend E) → Keeps P (runner_for_checkpoint d r b)
    unfolding runner_for_checkpoint client_for
    Keeps-runner_for_checkpoint b = Keeps-bind (Keeps-gets _) (Keeps-reconnect b)

    Keeps-warn_dropped : (dropped : Bool) → Keeps P (warn_dropped d dropped)
    unfolding warn_dropped
    Keeps-warn_dropped false = Keeps-pure tt
    Keeps-warn_dropped true = Keeps-warn inner _

    Keeps-checkpoint_sandbox : (b : SandboxBackend E) → Keeps P (checkpoint_sandbox d r b)
    unfolding checkpoint_sandbox
    Keeps-checkpoint_sandbox b = Keeps-bind (Keeps-runner_for_checkpoint b) (λ c.
        Keeps-bind (Keeps-call_hooks inner d _ _) (λ _. Keeps-bind (Keeps-gets _) (λ time.
          Keeps-bind (Keeps-checkpoint d.host inner r own)
            (λ saved. Keeps-bind (Keeps-warn_dropped _) (λ _. loc.commit r b time saved own)))))

    pub Keeps-suspend_running : Keeps P (suspend_running d r)
    unfolding suspend_running put_away
    Keeps-suspend_running = Keeps-bind (Keeps-lift _) (λ b.
        Keeps-bind
          (Keeps-on_not_found
            (Keeps-if b.supports_hibernate (Keeps-hibernate_sandbox b) (Keeps-checkpoint_sandbox b))
            (forget_at _ own))
          (λ _. detach_at _ own _))

  Keeps-destroy_released :
      (b : SandboxBackend E) (r : SessionRecord) → Keeps P (destroy_released d b r)
  unfolding destroy_released
  Keeps-destroy_released b (running r) =
      Keeps-bind (Keeps-destroy_gone inner _) (λ _. Keeps-drop d.host inner _)
  Keeps-destroy_released b (hibernated r deadline) =
      Keeps-bind (Keeps-destroy_gone inner _) (λ _. Keeps-drop d.host inner _)
  Keeps-destroy_released b (checkpointed c s deadline) = Keeps-pure tt

  Keeps-release_owned :
      (r : SessionRecord) (o : Option (SandboxBackend E))
      → (base_of r).session_id ≡ id
      → Keeps P (release_owned d r o)
  unfolding release_owned
  Keeps-release_owned r none own = Keeps-warn inner _
  Keeps-release_owned r (some b) own = rw own (
      Keeps-bind (Keeps-evict inner)
        (λ _. Keeps-bind (Keeps-destroy_released b r) (λ _. loc.forget)))

  pub Keeps-release_session :
      (r : SessionRecord) → (base_of r).session_id ≡ id → Keeps P (release_session d r)
  unfolding release_session
  Keeps-release_session r own = Keeps-release_owned r _ own
