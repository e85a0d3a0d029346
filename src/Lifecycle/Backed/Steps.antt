-- ===== src/Lifecycle/Backed/Steps.antt =====
-- The changes of a session's own records and files: each keeps a checkpointed record with its bundle.
use dsh_yawn.Base.{ℕ, ◌≡◌, String}
use dsh_yawn.Dict.{Dict, get, put, get-put_self, get-delete_self}
use dsh_yawn.Exec.{Exec, ◌>>=◌}
use dsh_yawn.Exec.Hoare.{Keeps, Keeps-pure, Keeps-gets, Keeps-bind}
use dsh_yawn.Exec.Leaves.{
  Leaves, Leaves-Keeps, Keeps-Leaves, Leaves-bind_always, Leaves-bind_ensured,
}
use dsh_yawn.Records.{Bytes, RunningRecord, SessionRecord, running, Checkpoint, base_of}
use dsh_yawn.Registry.{SandboxBackend}
use dsh_yawn.Store.Memory.{set_record-state, delete_record-state}
use dsh_yawn.Checkpoint.{SavedCheckpoint}
use dsh_yawn.World.{Client, World, on_store}
use dsh_yawn.Lifecycle.{Deps, store_set, store_delete, save_files, forget_session}
use dsh_yawn.Lifecycle.Stopping.{commit_checkpoint}
use dsh_yawn.Lifecycle.Starting.{finish_restore}
use dsh_yawn.Lifecycle.Frame.{HasSandbox, Keeps-call_hooks, Keeps-destroy_gone}
use dsh_yawn.Lifecycle.Backed.{
  Backed, Light, Stocked, Light-Backed, Stocked-Backed, Light-inner, Stocked-inner, Needless,
}
use dsh_yawn.Lifecycle.Backed.Files.{save_files-Backed, save_files-Stocked, Light-remove_files}

module _ {E : Type 0} (d : Deps E) (id : String) where
  store_delete-Light : Leaves (Backed id) (store_delete d id) (Light id)
  unfolding store_delete on_store
  store_delete-Light = record {
    leaves = λ w p. record {
      needless =
          rw
            (
              delete_record-state d.host.write w.store id w.env,
              get-delete_self w.store.state.sessions id,
            )
            tt;
    };
  }

  Needless-put :
      (m : Dict SessionRecord) (j : String) (r : SessionRecord)
      → j ≡ id
      → HasSandbox r
      → Needless (get (put m j r) id)
  Needless-put m j r e has = rw (e, get-put_self m id r) has

  store_set-Light :
      {P : World E → Type 0} (r : SessionRecord)
      → (base_of r).session_id ≡ id
      → HasSandbox r
      → Leaves P (store_set d r) (Light id)
  unfolding store_set on_store
  store_set-Light r own has = record {
    leaves = λ w p. record {
      needless = rw (set_record-state d.host.write w.store r w.env) (Needless-put _ _ r own has);
    };
  }

  store_set-Stocked : (r : SessionRecord) → Keeps (Stocked id) (store_set d r)
  unfolding store_set on_store
  store_set-Stocked r = record {
    keeps = λ w p. record { bundle = p.bundle; is_saved = p.is_saved };
  }

  pub Backed-forget : Keeps (Backed id) (forget_session d id)
  unfolding forget_session
  Backed-forget = Leaves-Keeps (
      Leaves-bind_always (Light id) (Light-Backed id) store_delete-Light (λ _.
        Keeps-Leaves (Light-Backed id)
          (Keeps-bind (Light-remove_files d id id) (λ _. Keeps-call_hooks (Light-inner id) d _ _))))

  pub Backed-finish :
      (r : RunningRecord) (saved : Checkpoint) (c : Client)
      → r.base.session_id ≡ id
      → Keeps (Backed id) (finish_restore d id r saved c)
  unfolding finish_restore
  Backed-finish r saved c own = Leaves-Keeps (
      Leaves-bind_always (Light id) (Light-Backed id) (store_set-Light (running r) own tt) (λ _.
        Keeps-Leaves (Light-Backed id) (
          Keeps-bind (Light-remove_files d id id)
            (λ _. Keeps-bind (Keeps-call_hooks (Light-inner id) d _ _) (λ _. Keeps-pure c)))))

  -- The bundle is on disk before the record says checkpointed.
  Stocked-commit :
      (j : String) (bundle archive : Bytes) {rest : Exec (World E) (Unit {0})}
      → j ≡ id
      → Leaves (Stocked id) rest (Backed id)
      → Keeps (Backed id) (save_files d j bundle archive >>= λ _. rest)
  Stocked-commit j bundle archive e k = rw e (
      Leaves-Keeps (
        Leaves-bind_ensured (Stocked id)
          (Keeps-Leaves (λ w p. p) (save_files-Backed d id bundle archive))
          (save_files-Stocked d id bundle archive) (λ _. k)))

  pub Backed-commit :
      (r : RunningRecord) (b : SandboxBackend E) (time : ℕ) (saved : SavedCheckpoint)
      → r.base.session_id ≡ id
      → Keeps (Backed id) (commit_checkpoint d r b time saved)
  unfolding commit_checkpoint
  Backed-commit r b time saved own = Stocked-commit _ _ _ own (
      Keeps-Leaves (Stocked-Backed id) (
        Keeps-bind (Keeps-gets _) (λ later.
          Keeps-bind (store_set-Stocked _) (λ _. Keeps-destroy_gone (Stocked-inner id) _))))

  pub Backed-set :
      (r : SessionRecord)
      → (base_of r).session_id ≡ id
      → HasSandbox r
      → Keeps (Backed id) (store_set d r)
  Backed-set r own has =
      let k : Leaves (Backed id) (store_set d r) (Light id) = store_set-Light r own has in
      record { keeps = λ w p. Light-Backed id _ (k.leaves w p) }
