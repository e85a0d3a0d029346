-- ===== src/Lifecycle/Parked.antt =====
-- What a suspend leaves of the session.
use dsh_yawn.Base.{◌≡◌, refl, String, Bool, true, Option, none, some, or_default}
use dsh_yawn.Dict.{Dict, get, put, get-put_self}
use dsh_yawn.Exec.{ok}
use dsh_yawn.Exec.Hoare.{
  Keeps, Ensures, Keeps-pure, Keeps-on_not_found, Keeps→Ensures, Ensures-bind, Ensures-pure,
  Ensures-gets, Ensures-if,
}
use dsh_yawn.Exec.Outcomes.{
  Anywhere, Ensures-then, Ensures-from, Ensures-to, Ensures-answer, Ensures-always,
  Ensures-on_not_found,
}
use dsh_yawn.Records.{RunningRecord, SessionRecord, running, hibernated, checkpointed, base_of}
use dsh_yawn.Store.{get_record}
use dsh_yawn.Store.Memory.{set_record-state}
use dsh_yawn.Registry.{SandboxBackend}
use dsh_yawn.World.{World, on_store}
use dsh_yawn.World.Rules.{IsInner, Keeps-outside}
use dsh_yawn.Attachment.{detach}
use dsh_yawn.Attachment.Keeping.{Keeps-detach}
use dsh_yawn.Lifecycle.{Deps, store_set, forget_session}
use dsh_yawn.Lifecycle.Stopping.{
  hibernate_sandbox, checkpoint_sandbox, commit_checkpoint, put_away, suspend_running,
}
use dsh_yawn.Lifecycle.Machine.{suspend, hibernate}
use dsh_yawn.Lifecycle.Isolation.{KeyedRecords, Own, Stored, Ensures-Own}
use dsh_yawn.Lifecycle.Forgotten.{Forgotten, forget_session-Forgotten}

-- No sandbox of the session is running: there is no record, or a parked one.
abbrev pub NotRunning : Option SessionRecord → Type 0
NotRunning none = Unit
NotRunning (some (running r)) = ⊥
NotRunning (some (hibernated r deadline)) = Unit
NotRunning (some (checkpointed b saved deadline)) = Unit

module _ {E : Type 0} (id : String) where
  pub record Parked (w : World E) : Type 0 where
    pub not_running : NotRunning (get w.store.state.sessions id)

  Parked-inner : IsInner Parked id
  Parked-inner = record {
    env_free = λ w e p. record { not_running = p.not_running };
    warnings_free = λ w m p. record { not_running = p.not_running };
    cached = λ w c p. record { not_running = p.not_running };
    evicted = λ w p. record { not_running = p.not_running };
  }

module _ {E : Type 0} (d : Deps E) (id : String) where
  put-NotRunning :
      (m : Dict SessionRecord) (j : String) (r : SessionRecord)
      → j ≡ id
      → NotRunning (some r)
      → NotRunning (get (put m j r) id)
  put-NotRunning m j r e n = rw (e, get-put_self m id r) n

  store_set-Parked :
      {P : World E → Type 0} (r : SessionRecord)
      → (base_of r).session_id ≡ id
      → NotRunning (some r)
      → Ensures P (store_set d r) (λ _. Parked id)
  unfolding store_set on_store
  store_set-Parked r own n = Ensures-always (Parked id) (λ w p. record {
    not_running = rw (set_record-state d.host.write w.store r w.env) (put-NotRunning _ _ r own n);
  })

  Forgotten-Parked : (w : World E) → Forgotten id w → Parked id w
  Forgotten-Parked w p = record { not_running = rw p.no_record tt }

  forgotten_at : (j : String) → j ≡ id → Ensures Anywhere (forget_session d j) (λ _. Parked id)
  forgotten_at j e = rw e (Ensures-to (λ _. Forgotten-Parked) (forget_session-Forgotten d id))

  detach_at :
      (j : String) → j ≡ id → (sandbox : String) → Keeps (Parked id) (detach d.host j sandbox)
  detach_at j e sandbox = rw e (Keeps-detach d.host (Parked-inner id) sandbox)

  module _ (r : RunningRecord) (own : r.base.session_id ≡ id) where
    hibernate_sandbox-Parked :
        (b : SandboxBackend E) → Ensures Anywhere (hibernate_sandbox d r b) (λ _. Parked id)
    unfolding hibernate_sandbox
    hibernate_sandbox-Parked b = Ensures-then _ (λ c. Ensures-then _ (λ _. Ensures-then _ (λ time.
        Ensures-then _
          (λ _. Ensures-then _ (λ _. Ensures-then _ (λ later. store_set-Parked _ own tt))))))

    checkpoint_sandbox-Parked :
        (b : SandboxBackend E) → Ensures Anywhere (checkpoint_sandbox d r b) (λ _. Parked id)
    unfolding checkpoint_sandbox commit_checkpoint
    checkpoint_sandbox-Parked b = Ensures-then _ (λ c. Ensures-then _ (λ _. Ensures-then _ (λ time.
        Ensures-then _ (λ saved. Ensures-then _ (λ _. Ensures-then _ (λ _. Ensures-then _ (λ later.
          Ensures-bind (λ _. Parked id) (store_set-Parked _ own tt)
            (λ _.
              Keeps→Ensures
                (Keeps-on_not_found (Keeps-outside (Parked-inner id) _) (Keeps-pure tt))))))))))

    suspend_running-Parked : Ensures Anywhere (suspend_running d r) (λ _. Parked id)
    unfolding suspend_running put_away
    suspend_running-Parked = Ensures-then _ (λ b.
        Ensures-bind (λ _. Parked id)
          (Ensures-on_not_found
            (Ensures-if b.supports_hibernate (hibernate_sandbox-Parked b)
              (checkpoint_sandbox-Parked b))
            (forgotten_at _ own))
          (λ _. Keeps→Ensures (detach_at _ own _)))

  suspend-Parked :
      (found : Option SessionRecord)
      → Own id found
      → Ensures (Stored id found) (suspend d found) (λ _. Parked id)
  unfolding suspend
  suspend-Parked (some (running r)) own = Ensures-from (λ w p. tt) (suspend_running-Parked r own)
  suspend-Parked none own = Ensures-pure tt _ (λ w p. record { not_running = rw p.1 tt })
  suspend-Parked (some (hibernated r deadline)) own =
      Ensures-pure tt _ (λ w p. record { not_running = rw p.1 tt })
  suspend-Parked (some (checkpointed b saved deadline)) own =
      Ensures-pure tt _ (λ w p. record { not_running = rw p.1 tt })

  -- If every stored record names its session and the guard does not refuse, a `hibernate` that
  -- returns leaves no running record for the session, on each of the ways in which it suspends.
  pub hibernate-Parked :
      (guard : Option Bool) (w : World E) (answer : Bool)
      → KeyedRecords w.store.state.sessions
      → or_default guard true ≡ true
      → (hibernate d id guard w).0 ≡ ok answer
      → Parked id (hibernate d id guard w).1
  unfolding hibernate get_record
  hibernate-Parked guard w answer keyed agreed = rw agreed (
      Ensures-answer {Q = λ _. Parked id}
        (Ensures-bind (Stored id) (Ensures-gets _ _ (λ w k. (k, refl))) (λ found.
          Ensures-bind (λ _. Parked id) (Ensures-Own id found (suspend-Parked found))
            (λ _. Ensures-pure true _ (λ w p. p))))
        w answer keyed)
