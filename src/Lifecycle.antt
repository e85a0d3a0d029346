-- ===== src/Lifecycle.antt =====
-- control-plane/src/sandbox/manager/sandbox-lifecycle.ts: what the session lifecycle depends on, and
-- the steps that its transitions share. A session's lock keeps the other verbs of the session out, so
-- that a verb is one action; telemetry is left out.
pub mod Starting
pub mod Stopping
pub mod Machine
pub mod Frame
pub mod Isolation
pub mod Served
pub mod Backed
pub mod Histories
pub mod Forgotten
pub mod Released
pub mod Rounds
pub mod Parked
pub mod Recovery
use dsh_yawn.Base.{
  ℕ, ◌+◌, ◌≡◌, refl, String, Bool, true, false, not, Option, none, some, List, [], ◌∷◌, leb,
  or_default, is_some, if◌then◌else◌,
}
use dsh_yawn.Dict.{Dict, get, put, delete}
use dsh_yawn.Exec.{
  Error, not_found, failure, Result, ok, err, Exec, pure, raise, gets, lift, catch, ◌>>=◌, ◌>>◌,
  on_not_found, both,
}
use dsh_yawn.Records.{
  Bytes, Reference, RecordBase, RunningRecord, SessionRecord, running, hibernated, checkpointed,
  SandboxProfile, profile_name, Checkpoint, base_of, expires_at,
}
use dsh_yawn.Store.{
  SessionStore, Loaded, initialize, get_record, all_records, set_record, delete_record,
}
use dsh_yawn.Registry.{SandboxHandle, SandboxBackend, Registry, find_backend, backend_for}
use dsh_yawn.ProfileChoice.{Settings, pending}
use dsh_yawn.Checkpoint.{SavedCheckpoint}
use dsh_yawn.World.{
  Client, Host, World, outside, outside_silent, on_store, warn, evict, change_files,
}
use dsh_yawn.Attachment.{client_for, detach, drop, reuse_cached, attach, connect, checkpoint}

-- The seams of `LifecycleHooks`. A hook reads its context and acts on the environment.
pub record Hooks (E : Type 0) : Type 0 where
  pub before_hibernate : Option (RunningRecord → Option Client → E → Result (Unit {0}) × E)
  pub after_wake : Option (RunningRecord → Client → Bool → E → Result (Unit {0}) × E)
  pub before_checkpoint : Option (RunningRecord → Client → E → Result (Unit {0}) × E)
  pub after_restore : Option (RunningRecord → Client → Checkpoint → E → Result (Unit {0}) × E)
  pub after_release : Option (String → E → Result (Unit {0}) × E)

pub record Deps (E : Type 0) : Type 0 where
  pub host : Host E
  pub registry : Registry E
  pub settings : Settings
  pub hooks : List (Hooks E)
  pub expires_after_ms : ℕ

-- `new Date(expiresAt).getTime() <= Date.now()`; a deadline that is no date has not passed.
unfoldable pub passed : Option ℕ → ℕ → Bool
passed none time = false
passed (some deadline) time = leb deadline time

unfoldable pub has_expired : SessionRecord → ℕ → Bool
unfolding passed
has_expired (running r) time = false
has_expired (hibernated r deadline) time = passed deadline time
has_expired (checkpointed b c deadline) time = passed deadline time

module _ {E : Type 0} (d : Deps E) where
  open d use {host, registry, settings, hooks, expires_after_ms}

  abbrev clock : Exec (World E) ℕ
  clock = gets (λ w. host.now w.env)

  unfoldable pub store_set : SessionRecord → Exec (World E) (Unit {0})
  store_set r = on_store (λ s. set_record host.write s r)

  unfoldable pub store_delete : String → Exec (World E) (Unit {0})
  store_delete id = on_store (λ s. delete_record host.write s id)

  -- `await hooks.x?.(context)` for each registered feature, in order.
  pub call_hook : Option (E → Result (Unit {0}) × E) → Exec (World E) (Unit {0})
  call_hook none = pure tt
  call_hook (some f) = outside f

  unfoldable pub call_hooks :
      (Hooks E → Option (E → Result (Unit {0}) × E)) → List (Hooks E) → Exec (World E) (Unit {0})
  unfolding call_hook
  call_hooks pick [] = pure tt
  call_hooks pick (x ∷ xs) = do call_hook (pick x); call_hooks pick xs

  pub applied {ℓ} :
      {A : Type ℓ} → (A → E → Result (Unit {0}) × E) → Option A → Option (E → Result (Unit {0}) × E)
  applied f none = none
  applied f (some a) = some (f a)

  -- checkpoints.save: the bundle, then the tar, or the removal of an older tar.
  unfoldable pub save_files : String → Bytes → Bytes → Exec (World E) (Unit {0})
  save_files id bundle [] = do
    change_files host (λ w. record w { bundles = put w.bundles id bundle })
    change_files host (λ w. record w { archives = delete w.archives id })
  save_files id bundle (b ∷ bs) = do
    change_files host (λ w. record w { bundles = put w.bundles id bundle })
    change_files host (λ w. record w { archives = put w.archives id (b ∷ bs) })

  unfoldable pub remove_files : String → Exec (World E) (Unit {0})
  remove_files id =
      both (change_files host (λ w. record w { bundles = delete w.bundles id }))
        (change_files host (λ w. record w { archives = delete w.archives id }))

  unfoldable pub forget_session : String → Exec (World E) (Unit {0})
  unfolding store_delete remove_files call_hooks applied
  forget_session id = do
    store_delete id
    remove_files id
    call_hooks (λ x. applied (λ f. f id) x.after_release) hooks
