-- ===== src/Lifecycle/Starting.antt =====
-- control-plane/src/sandbox/manager/sandbox-lifecycle.ts: the transitions that end in a live runner.
use dsh_yawn.Base.{ℕ, String, false, Option, none, some, [], or_default, if◌then◌else◌}
use dsh_yawn.Dict.{get}
use dsh_yawn.Exec.{
  Error, failure, Result, Exec, pure, raise, gets, lift, catch, ◌>>=◌, ◌>>◌, on_not_found,
}
use dsh_yawn.Records.{
  Bytes, Reference, RecordBase, RunningRecord, SessionRecord, running, SandboxProfile, profile_name,
  Checkpoint,
}
use dsh_yawn.Registry.{SandboxHandle, SandboxBackend, backend_for}
use dsh_yawn.ProfileChoice.{pending}
use dsh_yawn.World.{Client, World, outside, read}
use dsh_yawn.Attachment.{detach, reuse_cached, attach}
use dsh_yawn.Lifecycle.{Deps, clock, store_set, call_hooks, applied, remove_files, forget_session}

module _ {E : Type 0} (d : Deps E) where
  open d use {host, registry, settings, hooks}

  unfoldable pub described :
      String → SandboxProfile → String → SandboxBackend E → SandboxHandle → ℕ → RunningRecord
  described id profile url backend handle time = record {
    base = record {
      session_id = id;
      backend = backend.name;
      profile = profile_name profile;
      repository_url = url;
      created_at = time;
      updated_at = time;
    };
    sandbox_id = handle.sandbox_id;
    reference = handle.reference;
  }

  unfoldable pub or_unreachable : Option (SandboxBackend E) → Exec (World E) (SandboxBackend E)
  or_unreachable none = raise (failure "unreachable: no backend for profile")
  or_unreachable (some b) = pure b

  unfoldable pub claim_sandbox : String → SandboxProfile → String → Exec (World E) RunningRecord
  unfolding or_unreachable described
  claim_sandbox id profile url = do
    backend ← or_unreachable (get registry.backends (profile_name profile))
    handle ← outside (backend.provision id url)
    time ← clock d
    pure (described id profile url backend handle time)

  unfoldable pub provision : String → SandboxProfile → String → Exec (World E) RunningRecord
  unfolding claim_sandbox store_set
  provision id profile url = do r ← claim_sandbox id profile url; store_set d (running r); pure r

  unfoldable pub profile_or_unreachable : Option SandboxProfile → Exec (World E) SandboxProfile
  profile_or_unreachable none = raise (failure "unreachable: no profile")
  profile_or_unreachable (some p) = pure p

  -- `backend.destroy(reference).catch(() => {})`
  unfoldable pub destroy_quietly : SandboxBackend E → Reference → Exec (World E) (Unit {0})
  destroy_quietly backend reference = catch (outside (backend.destroy reference)) (λ error. pure tt)

  unfoldable pub replace_lost_sandbox :
      SandboxBackend E → RunningRecord → String → Exec (World E) Client
  unfolding destroy_quietly forget_session profile_or_unreachable provision
  replace_lost_sandbox backend r url = do
    destroy_quietly backend r.reference
    forget_session d r.session_id
    profile ← profile_or_unreachable (get registry.profiles r.profile)
    replacement ← provision r.session_id profile url
    attach host replacement url none

  unfoldable pub woken_record : RunningRecord → SandboxHandle → ℕ → RunningRecord
  woken_record r handle time = record {
    base = record r.base { updated_at = time };
    sandbox_id = handle.sandbox_id;
    reference = handle.reference;
  }

  unfoldable pub after_wake_hooks :
      SandboxBackend E → RunningRecord → Client → Exec (World E) (Unit {0})
  unfolding call_hooks applied
  after_wake_hooks backend woken client =
      if backend.supports_hibernate
      then call_hooks d
          (λ x.
            applied d (λ f. f woken client (or_default backend.wake_keeps_filesystem false))
              x.after_wake)
          hooks
      else pure tt

  unfoldable pub wake : SandboxBackend E → RunningRecord → String → Exec (World E) Client
  unfolding woken_record store_set after_wake_hooks
  wake backend r url = do
    handle ← outside (backend.wake r.reference)
    time ← clock d
    let woken = woken_record r handle time
    store_set d (running woken)
    client ← attach host woken url none
    after_wake_hooks backend woken client
    pure client

  -- For a running record whose sandbox died and for a hibernated one; `whole` is the record.
  unfoldable pub wake_or_replace : SessionRecord → RunningRecord → String → Exec (World E) Client
  unfolding wake replace_lost_sandbox
  wake_or_replace whole r url = do
    backend ← lift (backend_for registry whole)
    on_not_found (wake backend r url) (replace_lost_sandbox backend r url)

  unfoldable pub serve_uncached : RunningRecord → Option Client → Exec (World E) Client
  unfolding wake_or_replace
  serve_uncached r (some client) = pure client
  serve_uncached r none = do
    backend ← lift (backend_for registry (running r))
    healthy ← outside (backend.health r.reference)
    if healthy
        then attach host r r.repository_url none
        else wake_or_replace (running r) r r.repository_url

  unfoldable pub serve_running : RunningRecord → Exec (World E) Client
  unfolding serve_uncached
  serve_running r = do cached ← reuse_cached host r; serve_uncached r cached

  unfoldable pub provision_fresh : String → (E → Result String × E) → Exec (World E) Client
  unfolding provision
  provision_fresh id repository = do
    store ← gets (λ w. w.store)
    profile ← lift (pending settings store id)
    url ← outside repository
    let normalized = host.normalize_url url
    r ← provision id profile normalized
    attach host r normalized none

  unfoldable pub or_missing : Option Bytes → Exec (World E) Bytes
  or_missing none = raise (failure "the checkpoint is missing from the host's state directory")
  or_missing (some bundle) = pure bundle

  unfoldable pub give_up_restore : String → RunningRecord → Error → Exec (World E) Client
  unfolding destroy_quietly
  give_up_restore id replacement error = do
    backend ← lift (backend_for registry (running replacement))
    destroy_quietly backend replacement.reference
    detach host id replacement.sandbox_id
    raise error

  -- The checkpoint is back in the new sandbox: only now does the record say so.
  unfoldable pub finish_restore :
      String → RunningRecord → Checkpoint → Client → Exec (World E) Client
  unfolding store_set remove_files call_hooks applied
  finish_restore id replacement saved client = do
    store_set d (running replacement)
    remove_files d id
    call_hooks d (λ x. applied d (λ f. f replacement client saved) x.after_restore) hooks
    pure client

  unfoldable pub restore : RecordBase → Checkpoint → Exec (World E) Client
  unfolding or_missing profile_or_unreachable claim_sandbox give_up_restore finish_restore
  restore b saved = do
    found ← read host (λ w. get w.bundles b.session_id)
    bundle ← or_missing found
    archive ← read host (λ w. get w.archives b.session_id)
    profile ← profile_or_unreachable (get registry.profiles b.profile)
    replacement ← claim_sandbox b.session_id profile b.repository_url
    client ←
        catch
          (attach host replacement b.repository_url (
            some (record {
              checkpoint = saved;
              bundle = bundle;
              artifacts = or_default archive [];
              artifacts_error = none;
            })))
          (give_up_restore b.session_id replacement)
    finish_restore b.session_id replacement saved client
