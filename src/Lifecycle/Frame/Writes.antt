-- ===== src/Lifecycle/Frame/Writes.antt =====
-- A condition that each single write of the session's own record and files keeps, their transactions
-- keep too.
use dsh_yawn.Base.{ℕ, ◌≡◌, String, some, [], ◌∷◌}
use dsh_yawn.Dict.{put, delete}
use dsh_yawn.Exec.Hoare.{Keeps, Keeps-pure, Keeps-gets, Keeps-bind}
use dsh_yawn.Records.{Bytes, RunningRecord, SessionRecord, running, Checkpoint, base_of}
use dsh_yawn.Store.{get_record}
use dsh_yawn.Registry.{SandboxBackend}
use dsh_yawn.Checkpoint.{SavedCheckpoint}
use dsh_yawn.World.{Client, World, change_files}
use dsh_yawn.World.Rules.{IsInner, Keeps-both}
use dsh_yawn.Lifecycle.{Deps, store_set, store_delete, save_files, remove_files, forget_session}
use dsh_yawn.Lifecycle.Stopping.{commit_checkpoint}
use dsh_yawn.Lifecycle.Starting.{finish_restore}
use dsh_yawn.Lifecycle.Frame.{IsLocal, Keeps-call_hooks, Keeps-destroy_gone}

module _ {E : Type 0} (d : Deps E) (P : World E → Type 0) (id : String) where
  pub record IsWritable : Type 0 where
    pub inner : IsInner P id
    pub owned :
        (w : World E) (r : SessionRecord)
        → P w
        → get_record w.store id ≡ some r
        → (base_of r).session_id ≡ id
    pub set : (r : SessionRecord) → (base_of r).session_id ≡ id → Keeps P (store_set d r)
    pub unset : Keeps P (store_delete d id)
    pub bundle_put :
        (b : Bytes) → Keeps P (change_files d.host (λ w. record w { bundles = put w.bundles id b }))
    pub bundle_gone :
        Keeps P (change_files d.host (λ w. record w { bundles = delete w.bundles id }))
    pub archive_put :
        (b : Bytes)
        → Keeps P (change_files d.host (λ w. record w { archives = put w.archives id b }))
    pub archive_gone :
        Keeps P (change_files d.host (λ w. record w { archives = delete w.archives id }))

module _ {E : Type 0} {d : Deps E} {P : World E → Type 0} {id : String}
    (wr : IsWritable d P id) where
  abbrev inner : IsInner P id
  inner = wr.inner

  Keeps-remove_files : Keeps P (remove_files d id)
  unfolding remove_files
  Keeps-remove_files = Keeps-both wr.bundle_gone wr.archive_gone

  Keeps-save_files : (bundle archive : Bytes) → Keeps P (save_files d id bundle archive)
  unfolding save_files
  Keeps-save_files bundle [] = Keeps-bind (wr.bundle_put bundle) (λ _. wr.archive_gone)
  Keeps-save_files bundle (b ∷ bs) =
      Keeps-bind (wr.bundle_put bundle) (λ _. wr.archive_put (b ∷ bs))

  Keeps-forget_session : Keeps P (forget_session d id)
  unfolding forget_session
  Keeps-forget_session =
      Keeps-bind wr.unset (λ _. Keeps-bind Keeps-remove_files (λ _. Keeps-call_hooks inner d _ _))

  Keeps-save_at :
      (j : String) → j ≡ id → (bundle archive : Bytes) → Keeps P (save_files d j bundle archive)
  Keeps-save_at j e bundle archive = rw e (Keeps-save_files bundle archive)

  Keeps-commit_checkpoint :
      (r : RunningRecord) (b : SandboxBackend E) (time : ℕ) (saved : SavedCheckpoint)
      → r.base.session_id ≡ id
      → Keeps P (commit_checkpoint d r b time saved)
  unfolding commit_checkpoint
  Keeps-commit_checkpoint r b time saved own = Keeps-bind (Keeps-save_at _ own _ _) (λ _.
      Keeps-bind (Keeps-gets _)
        (λ later. Keeps-bind (wr.set _ own) (λ _. Keeps-destroy_gone inner _)))

  Keeps-finish_restore :
      (r : RunningRecord) (saved : Checkpoint) (c : Client)
      → r.base.session_id ≡ id
      → Keeps P (finish_restore d id r saved c)
  unfolding finish_restore
  Keeps-finish_restore r saved c own = Keeps-bind (wr.set (running r) own) (λ _.
      Keeps-bind Keeps-remove_files
        (λ _. Keeps-bind (Keeps-call_hooks inner d _ _) (λ _. Keeps-pure c)))

  pub IsWritable-IsLocal : IsLocal d P id
  IsWritable-IsLocal = record {
    inner = inner;
    owned = wr.owned;
    set = λ r own has. wr.set r own;
    forget = Keeps-forget_session;
    commit = Keeps-commit_checkpoint;
    finish = Keeps-finish_restore;
  }
