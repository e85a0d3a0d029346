-- ===== src/Lifecycle/Stopping.antt =====
-- control-plane/src/sandbox/manager/sandbox-lifecycle.ts: the transitions that put a sandbox away.
use dsh_yawn.Base.{ℕ, ◌+◌, Bool, true, false, Option, none, some, if◌then◌else◌}
use dsh_yawn.Exec.{not_found, Exec, pure, raise, lift, ◌>>=◌, ◌>>◌, on_not_found}
use dsh_yawn.Records.{RunningRecord, SessionRecord, running, hibernated, checkpointed, base_of}
use dsh_yawn.Registry.{SandboxBackend, find_backend, backend_for, orphaned_record_message}
use dsh_yawn.Checkpoint.{SavedCheckpoint}
use dsh_yawn.World.{Client, World, outside, warn, evict}
use dsh_yawn.Attachment.{client_for, detach, drop, connect, checkpoint}
use dsh_yawn.Lifecycle.{Deps, clock, store_set, call_hooks, applied, save_files, forget_session}

module _ {E : Type 0} (d : Deps E) where
  open d use {host, registry, hooks, expires_after_ms}

  unfoldable pub destroy_expired : SessionRecord → Exec (World E) (Unit {0})
  destroy_expired (hibernated r deadline) = do
    backend ← lift (backend_for registry (hibernated r deadline))
    outside (backend.destroy r.reference)
    drop host r.sandbox_id
  destroy_expired (running r) = pure tt
  destroy_expired (checkpointed b c deadline) = pure tt

  unfoldable pub reclaim_expired : SessionRecord → Exec (World E) (Unit {0})
  unfolding destroy_expired forget_session
  reclaim_expired r = do destroy_expired r; forget_session d (base_of r).session_id

  -- The running → hibernated transition.
  unfoldable pub hibernate_sandbox : RunningRecord → SandboxBackend E → Exec (World E) (Unit {0})
  unfolding call_hooks applied store_set
  hibernate_sandbox r backend = do
    client ← client_for host r.session_id
    call_hooks d (λ x. applied d (λ f. f r client) x.before_hibernate) hooks
    time ← clock d
    outside (backend.hibernate r.reference)
    outside (backend.expire_at r.reference (time + expires_after_ms))
    later ← clock d
    store_set d (
        hibernated (record r { base = record r.base { updated_at = later } })
          (some (time + expires_after_ms)))

  unfoldable pub reconnect :
      RunningRecord → SandboxBackend E → Option Client → Exec (World E) Client
  reconnect r backend (some client) = pure client
  reconnect r backend none = do
    healthy ← outside (backend.health r.reference)
    if healthy then connect host r else raise (not_found "the sandbox is no longer running")

  unfoldable pub runner_for_checkpoint : RunningRecord → SandboxBackend E → Exec (World E) Client
  unfolding reconnect
  runner_for_checkpoint r backend = do
    cached ← client_for host r.session_id
    reconnect r backend cached

  unfoldable pub warn_dropped : Bool → Exec (World E) (Unit {0})
  warn_dropped false = pure tt
  warn_dropped true = warn "the artifacts folder was not carried with the checkpoint"

  -- The files reach the disk before the record says checkpointed, and that before the sandbox goes.
  unfoldable pub commit_checkpoint :
      RunningRecord → SandboxBackend E → ℕ → SavedCheckpoint → Exec (World E) (Unit {0})
  unfolding save_files store_set
  commit_checkpoint r backend time saved = do
    save_files d r.session_id saved.bundle saved.artifacts
    later ← clock d
    store_set d (
        checkpointed (record r.base { updated_at = later }) saved.checkpoint
          (some (time + expires_after_ms)))
    on_not_found (outside (backend.destroy r.reference)) (pure tt)

  -- The running → checkpointed transition.
  unfoldable pub checkpoint_sandbox : RunningRecord → SandboxBackend E → Exec (World E) (Unit {0})
  unfolding runner_for_checkpoint call_hooks applied warn_dropped commit_checkpoint
  checkpoint_sandbox r backend = do
    client ← runner_for_checkpoint r backend
    call_hooks d (λ x. applied d (λ f. f r client) x.before_checkpoint) hooks
    time ← clock d
    saved ← checkpoint host r
    warn_dropped saved.checkpoint.artifacts_dropped
    commit_checkpoint r backend time saved

  unfoldable pub put_away : RunningRecord → SandboxBackend E → Exec (World E) (Unit {0})
  unfolding hibernate_sandbox checkpoint_sandbox
  put_away r backend =
      if backend.supports_hibernate
      then hibernate_sandbox r backend
      else checkpoint_sandbox r backend

  unfoldable pub suspend_running : RunningRecord → Exec (World E) (Unit {0})
  unfolding put_away forget_session
  suspend_running r = do
    backend ← lift (backend_for registry (running r))
    on_not_found (put_away r backend) (forget_session d r.session_id)
    detach host r.session_id r.sandbox_id

  -- Release destroys a sandbox that exists; one that is already gone is no error.
  unfoldable pub destroy_released : SandboxBackend E → SessionRecord → Exec (World E) (Unit {0})
  destroy_released backend (running r) = do
    on_not_found (outside (backend.destroy r.reference)) (pure tt)
    drop host r.sandbox_id
  destroy_released backend (hibernated r deadline) = do
    on_not_found (outside (backend.destroy r.reference)) (pure tt)
    drop host r.sandbox_id
  destroy_released backend (checkpointed b c deadline) = pure tt

  unfoldable pub release_owned :
      SessionRecord → Option (SandboxBackend E) → Exec (World E) (Unit {0})
  unfolding destroy_released forget_session
  release_owned r none = warn (orphaned_record_message r)
  release_owned r (some backend) = do
    evict (base_of r).session_id
    destroy_released backend r
    forget_session d (base_of r).session_id

  unfoldable pub release_session : SessionRecord → Exec (World E) (Unit {0})
  unfolding release_owned
  release_session r = release_owned r (find_backend registry r)
