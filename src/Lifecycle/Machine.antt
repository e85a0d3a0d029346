-- ===== src/Lifecycle/Machine.antt =====
-- control-plane/src/sandbox/manager/sandbox-lifecycle.ts: the state machine, its three verbs and boot
-- recovery. `react` calls itself once, after an expired record was reclaimed; it runs on fuel, and
-- two rounds are enough, since the record is then gone.
use dsh_yawn.Base.{
  ℕ, String, Bool, true, false, Option, none, some, List, [], ◌∷◌, or_default, if◌then◌else◌,
}
use dsh_yawn.Exec.{failure, Result, Exec, pure, raise, gets, ◌>>=◌, ◌>>◌, on_not_found}
use dsh_yawn.Records.{SessionRecord, running, hibernated, checkpointed, base_of, expires_at}
use dsh_yawn.Store.{Loaded, initialize, get_record, all_records}
use dsh_yawn.Registry.{SandboxBackend, find_backend, orphaned_record_message}
use dsh_yawn.World.{Client, World, outside, warn}
use dsh_yawn.Lifecycle.{Deps, has_expired, clock}
use dsh_yawn.Lifecycle.Starting.{provision_fresh, serve_running, wake_or_replace, restore}
use dsh_yawn.Lifecycle.Stopping.{suspend_running, release_session, reclaim_expired}

-- A deadline that is no date releases the record at boot.
unfoldable pub lapsed : Option ℕ → SessionRecord → ℕ → Bool
lapsed none r time = true
lapsed (some deadline) r time = has_expired r time

unfoldable pub load : {E : Type 0} → Loaded → Exec (World E) (Unit {0})
load loaded w = let (r, s) = initialize w.store loaded in (r, record w { store = s })

module _ {E : Type 0} (d : Deps E) where
  open d use {registry}

  abbrev stored : String → Exec (World E) (Option SessionRecord)
  stored id = gets (λ w. get_record w.store id)

  unfoldable pub expired_now : Option SessionRecord → ℕ → Bool
  expired_now none time = false
  expired_now (some r) time = has_expired r time

  -- The column `ensureRunning` of the table of states.
  unfoldable pub start :
      String → (E → Result String × E) → Option SessionRecord → Exec (World E) Client
  start id repository none = provision_fresh d id repository
  start id repository (some (running r)) = serve_running d r
  start id repository (some (hibernated r deadline)) =
      wake_or_replace d (hibernated r deadline) r r.repository_url
  start id repository (some (checkpointed b saved deadline)) = restore d b saved

  unfoldable pub reclaim_then : Option SessionRecord → Exec (World E) Client → Exec (World E) Client
  reclaim_then none rest = rest
  reclaim_then (some r) rest = do reclaim_expired d r; rest

  unfoldable pub react_start : ℕ → String → (E → Result String × E) → Exec (World E) Client
  unfolding start reclaim_then expired_now
  react_start ℕ.zero id repository = raise (failure "unreachable: still expired")
  react_start (ℕ.suc fuel) id repository = do
    found ← stored id
    time ← clock d
    (if expired_now found time
        then reclaim_then found (react_start fuel id repository)
        else start id repository found)

  -- The column `hibernate`.
  unfoldable pub suspend : Option SessionRecord → Exec (World E) (Unit {0})
  suspend (some (running r)) = suspend_running d r
  suspend none = pure tt
  suspend (some (hibernated r deadline)) = pure tt
  suspend (some (checkpointed b saved deadline)) = pure tt

  -- The column `release`.
  unfoldable pub release_found : Option SessionRecord → Exec (World E) (Unit {0})
  release_found none = pure tt
  release_found (some r) = release_session d r

  unfoldable pub react_release : String → Exec (World E) (Unit {0})
  unfolding release_found
  react_release id = do found ← stored id; release_found found

  unfoldable pub ensure_running : String → (E → Result String × E) → Exec (World E) Client
  unfolding react_start
  ensure_running id repository = react_start 2 id repository

  -- `guard` is what the optional guard answers under the lock.
  unfoldable pub hibernate : String → Option Bool → Exec (World E) Bool
  unfolding suspend
  hibernate id guard =
      if or_default guard true then (do found ← stored id; suspend found; pure true) else pure false

  unfoldable pub release_guarded : Option SessionRecord → Option Bool → Exec (World E) (Unit {0})
  unfolding release_found
  release_guarded found guard = if or_default guard true then release_found found else pure tt

  unfoldable pub release : String → Option Bool → Exec (World E) (Unit {0})
  unfolding release_guarded
  release id guard = do found ← stored id; release_guarded found guard

  unfoldable pub put_deadline : SessionRecord → SandboxBackend E → Exec (World E) (Unit {0})
  unfolding react_release
  put_deadline (hibernated r (some deadline)) backend =
      on_not_found (outside (backend.expire_at r.reference deadline)) (react_release r.session_id)
  put_deadline r backend = pure tt

  unfoldable pub boot_parked : SessionRecord → SandboxBackend E → Exec (World E) (Unit {0})
  unfolding react_release put_deadline lapsed
  boot_parked r backend = do
    time ← clock d
    (if lapsed (expires_at r) r time
        then react_release (base_of r).session_id
        else put_deadline r backend)

  unfoldable pub boot_record : SessionRecord → Option (SandboxBackend E) → Exec (World E) (Unit {0})
  unfolding boot_parked
  boot_record r none = warn (orphaned_record_message r)
  boot_record (running r) (some backend) = pure tt
  boot_record (hibernated r deadline) (some backend) = boot_parked (hibernated r deadline) backend
  boot_record (checkpointed b c deadline) (some backend) =
      boot_parked (checkpointed b c deadline) backend

  unfoldable pub boot_records : List SessionRecord → Exec (World E) (Unit {0})
  unfolding boot_record
  boot_records [] = pure tt
  boot_records (r ∷ rs) = do boot_record r (find_backend registry r); boot_records rs

  unfoldable pub boot : Loaded → Exec (World E) (Unit {0})
  unfolding load boot_records
  boot loaded = do load loaded; records ← gets (λ w. all_records w.store); boot_records records
