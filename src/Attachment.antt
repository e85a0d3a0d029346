-- ===== src/Attachment.antt =====
-- control-plane/src/sandbox/manager/runner-attachment.ts: the live runner of each session. The loop
-- of `waitForRunner` runs on fuel: a failed round pauses for 500 ms and the deadline is 60 s away, so
-- that 121 rounds are enough.
pub mod Cached
pub mod Deadline
pub mod Keeping
use dsh_yawn.Base.{
  ℕ, ◌+◌, ◌-◌, ◌≡◌, refl, String, Bool, true, false, Option, none, some, List, [], ◌∷◌, ◌==◌, ltb,
  if◌then◌else◌,
}
use dsh_yawn.Dict.{Dict, get, put, delete}
use dsh_yawn.Exec.{
  Error, failure, Result, ok, err, Exec, pure, raise, gets, lift, catch, ◌>>=◌, ◌>>◌,
}
use dsh_yawn.Records.{Bytes, RunningRecord, SessionRecord, running, Checkpoint, has_repository}
use dsh_yawn.Checkpoint.{SavedCheckpoint, save_checkpoint, restore_checkpoint}
use dsh_yawn.World.{Client, Host, World, outside, outside_silent, cache_client, evict}

abbrev pub at_least_one : ℕ → ℕ
at_least_one n = if ltb n 1 then 1 else n

-- A workspace scope for the secrets, or the global one without a repository.
abbrev pub secret_scope : String → Option String
secret_scope url = if has_repository url then some url else none

module _ {E : Type 0} (h : Host E) where
  open h use {
    now, wait_for, drop_runner, pause, client_health, refresh, set_secrets, set_git_credentials,
    setup, exec, artifacts_dir, decode_text,
  }

  unfoldable pub client_for : String → Exec (World E) (Option Client)
  client_for id = gets (λ w. get w.clients id)

  -- `attachment.drop(sandboxId)`
  unfoldable pub drop : String → Exec (World E) (Unit {0})
  drop sandbox_id = outside_silent (drop_runner sandbox_id)

  unfoldable pub detach : String → String → Exec (World E) (Unit {0})
  unfolding drop
  detach id sandbox_id = do evict id; drop sandbox_id

  unfoldable pub push_credentials : Client → String → Exec (World E) (Unit {0})
  push_credentials client url = do
    outside refresh
    outside (set_secrets client (secret_scope url))
    outside (set_git_credentials client url)

  unfoldable pub check_identity : Client → String → Exec (World E) (Unit {0})
  check_identity client sandbox_id = do
    reported ← outside (client_health client)
    if reported == sandbox_id then pure tt else raise (failure "runner identity mismatch")

  unfoldable pub probe : String → ℕ → Exec (World E) Client
  unfolding check_identity
  probe sandbox_id timeout = do
    client ← outside (wait_for sandbox_id timeout)
    check_identity client sandbox_id
    pure client

  pub not_healthy : Exec (World E) Client
  not_healthy = raise (failure "runner did not become healthy")

  -- One round of the loop before the deadline, and what follows a failed one.
  unfoldable pub round : Bool → String → ℕ → Exec (World E) Client → Exec (World E) Client
  unfolding probe not_healthy drop
  round false sandbox_id timeout rest = not_healthy
  round true sandbox_id timeout rest =
      catch (probe sandbox_id timeout)
        (λ error. do drop sandbox_id; outside_silent (pause 500); rest)

  unfoldable pub wait_loop : ℕ → String → ℕ → Exec (World E) Client
  unfolding round
  wait_loop ℕ.zero sandbox_id deadline = not_healthy
  wait_loop (ℕ.suc fuel) sandbox_id deadline = do
    time ← gets (λ w. now w.env)
    round (ltb time deadline) sandbox_id (at_least_one (deadline - time))
        (wait_loop fuel sandbox_id deadline)

  unfoldable pub rounds : ℕ
  rounds = 121

  unfoldable pub wait_for_runner : String → Exec (World E) Client
  unfolding wait_loop rounds
  wait_for_runner sandbox_id = do
    time ← gets (λ w. now w.env)
    wait_loop rounds sandbox_id (time + 60000)

  -- The `try` of `reuseCached`.
  pub refresh_cached : Client → RunningRecord → Exec (World E) (Option Client)
  unfolding check_identity push_credentials
  refresh_cached client r = do
    check_identity client r.sandbox_id
    push_credentials client r.repository_url
    pure (some client)

  pub try_cached : RunningRecord → Option Client → Exec (World E) (Option Client)
  unfolding refresh_cached
  try_cached r none = pure none
  try_cached r (some client) =
      catch (refresh_cached client r) (λ error. do evict r.session_id; pure none)

  pub reuse_cached : RunningRecord → Exec (World E) (Option Client)
  unfolding try_cached client_for
  reuse_cached r = do cached ← client_for r.session_id; try_cached r cached

  unfoldable pub put_back : Client → String → Option SavedCheckpoint → Exec (World E) (Unit {0})
  put_back client url none = pure tt
  put_back client url (some saved) = outside (
      restore_checkpoint (exec client) artifacts_dir (has_repository url) saved.checkpoint
        saved.bundle saved.artifacts)

  unfoldable pub attach : RunningRecord → String → Option SavedCheckpoint → Exec (World E) Client
  unfolding wait_for_runner push_credentials put_back
  attach r url saved = do
    client ← wait_for_runner r.sandbox_id
    push_credentials client url
    outside (setup client url)
    put_back client url saved
    cache_client r.session_id client
    pure client

  pub connect_if_absent : RunningRecord → Option Client → Exec (World E) Client
  unfolding wait_for_runner
  connect_if_absent r (some client) = pure client
  connect_if_absent r none = do
    client ← wait_for_runner r.sandbox_id
    cache_client r.session_id client
    pure client

  pub connect : RunningRecord → Exec (World E) Client
  unfolding connect_if_absent client_for
  connect r = do cached ← client_for r.session_id; connect_if_absent r cached

  unfoldable pub checkpoint : RunningRecord → Exec (World E) SavedCheckpoint
  unfolding connect
  checkpoint r = do
    client ← connect r
    outside
        (save_checkpoint (exec client) artifacts_dir decode_text (has_repository r.repository_url))
