-- ===== src/Examples/Saved.antt =====
-- A sandbox put away as a checkpoint on the example host.
use dsh_yawn.Base.{if◌then◌else◌, ◌==◌, ◌≡◌, refl, true, Bool, false, none, some, [], ◌∷◌}
use dsh_yawn.Dict.{get, put, delete}
use dsh_yawn.Exec.{◌>>=◌, gets, pure, lift, catch, raise}
use dsh_yawn.Records.{running, checkpointed}
use dsh_yawn.Store.{get_record, set_record, persist, and_then, written_file, file_after}
use dsh_yawn.Registry.{find_backend, backend_for, owner, or_orphaned}
use dsh_yawn.World.{warn, outside, on_store, outside_silent, evict, change_files, written}
use dsh_yawn.Attachment.{checkpoint, client_for, detach, drop}
use dsh_yawn.Lifecycle.{save_files, store_set, call_hooks}
use dsh_yawn.Lifecycle.Stopping.{
  checkpoint_sandbox, runner_for_checkpoint, reconnect, commit_checkpoint, warn_dropped,
  suspend_running, put_away,
}
use dsh_yawn.Lifecycle.Machine.{hibernate, suspend}
use dsh_yawn.Lifecycle.Histories.{hibernating, perform, perform_all}
use dsh_yawn.Examples.{no_hibernate, base, box, awake}
use dsh_yawn.Checkpoint.{
  save_checkpoint, git_half, collect_artifacts, with_artifacts, read_artifacts, run_script, drain,
}
use dsh_yawn.Records.{Bytes}
use dsh_yawn.Lifecycle.Backed.{Covers}
use dsh_yawn.Lifecycle.Backed.Always.{IsBacked, perform_all-bundle}
use dsh_yawn.Examples.Sessions.{awake-KeyedRecords}

awake-IsBacked : IsBacked awake
unfolding get
awake-IsBacked j = record { covers = by_name ("s" == j) }
  where
    by_name : (b : Bool) → Covers (if b then some (running box) else none) none
    by_name true = tt
    by_name false = tt

-- The backend has no hibernation, so the sandbox is checkpointed; its folder cannot be read.
awake-saved :
    get (perform_all no_hibernate awake (("s", hibernating none) ∷ [])).store.state.sessions "s"
    ≡ some (
        checkpointed
          (record base { updated_at = 10 })
          (record { commit = none; branch = none; artifacts_dropped = true })
          (some 1010))
unfolding perform_all perform hibernate suspend suspend_running put_away checkpoint_sandbox
    runner_for_checkpoint reconnect checkpoint save_checkpoint git_half collect_artifacts
    with_artifacts read_artifacts run_script drain save_files commit_checkpoint warn_dropped
    change_files written get_record get put delete ◌>>=◌ gets pure lift catch raise backend_for
    find_backend owner or_orphaned store_set on_store set_record persist and_then written_file
    file_after outside outside_silent client_for warn call_hooks detach evict drop
awake-saved = refl

perform_all-bundle_example :
    (bundle : Bytes) × (get
        (perform_all no_hibernate awake (("s", hibernating none) ∷ [])).bundles
        "s"
      ≡ some bundle)
perform_all-bundle_example =
    perform_all-bundle no_hibernate awake (("s", hibernating none) ∷ []) "s"
      (record base { updated_at = 10 })
      (record { commit = none; branch = none; artifacts_dropped = true }) (some 1010)
      awake-KeyedRecords awake-IsBacked awake-saved
