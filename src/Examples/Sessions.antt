-- ===== src/Examples/Sessions.antt =====
-- Runs of the lifecycle on the example host.
use dsh_yawn.Base.{ℕ, ◌≡◌, refl, String, true, none, some, [], ◌∷◌, arith, eq_iff}
use dsh_yawn.Dict.{get, put, delete}
use dsh_yawn.Exec.{Result, ok, ◌>>=◌, gets, pure, lift, catch, raise, both, first_error}
use dsh_yawn.Records.{running, hibernated}
use dsh_yawn.Store.{
  get_record, set_record, persist, and_then, written_file, file_after, delete_record,
}
use dsh_yawn.Registry.{find_backend, backend_for, owner, or_orphaned}
use dsh_yawn.World.{outside, on_store, cache_client, outside_silent, evict, change_files, written}
use dsh_yawn.Attachment.{
  attach, wait_for_runner, wait_loop, rounds, round, probe, check_identity, push_credentials,
  put_back, client_for, detach, drop,
}
use dsh_yawn.Lifecycle.{
  has_expired, passed, store_set, call_hooks, store_delete, remove_files, forget_session,
}
use dsh_yawn.Lifecycle.Stopping.{
  suspend_running, put_away, hibernate_sandbox, release_session, release_owned, destroy_released,
}
use dsh_yawn.Lifecycle.Starting.{wake_or_replace, wake, woken_record, after_wake_hooks}
use dsh_yawn.Lifecycle.Machine.{
  ensure_running, hibernate, release, react_start, start, expired_now, suspend, release_guarded,
  release_found,
}
use dsh_yawn.Lifecycle.Isolation.{KeyedRecords, KeyedRecords-put, holding}
use dsh_yawn.Lifecycle.Histories.{
  ensuring, hibernating, releasing, perform_all, perform_all-holding,
}
use dsh_yawn.Lifecycle.Served.{Live}
use dsh_yawn.Lifecycle.Served.Answer.{ensure_running-Live}
use dsh_yawn.Lifecycle.Parked.{Parked, hibernate-Parked}
use dsh_yawn.Lifecycle.Forgotten.{Forgotten}
use dsh_yawn.Lifecycle.Released.{release-Forgotten}
use dsh_yawn.Lifecycle.Rounds.{react_start-two}
use dsh_yawn.Examples.{deps, registry, backend, box, asleep, awake}

none_stored : KeyedRecords []
unfolding KeyedRecords get
none_stored j r e = ground arith

no_repository : ℕ → Result String × ℕ
no_repository e = (ok "", e)

asleep-KeyedRecords : KeyedRecords asleep.store.state.sessions
unfolding put get
asleep-KeyedRecords = KeyedRecords-put asleep "s" [] (hibernated box (some 100)) none_stored

asleep-ensure_running : (ensure_running deps "s" no_repository asleep).0 ≡ ok 7
unfolding ensure_running react_start start expired_now has_expired passed get_record get put delete
    no_repository ◌>>=◌ gets pure lift catch raise wake_or_replace backend_for find_backend owner
    or_orphaned wake woken_record store_set on_store set_record persist and_then written_file
    file_after outside attach wait_for_runner wait_loop rounds round probe check_identity
    push_credentials put_back cache_client after_wake_hooks call_hooks
asleep-ensure_running = refl

ensure_running-Live_example : Live "s" 7 (ensure_running deps "s" no_repository asleep).1
ensure_running-Live_example =
    ensure_running-Live deps "s" no_repository asleep 7 asleep-KeyedRecords asleep-ensure_running

react_start-two_example :
    react_start deps 5 "s" no_repository asleep ≡ react_start deps 2 "s" no_repository asleep
react_start-two_example = react_start-two deps "s" no_repository 3 asleep asleep-KeyedRecords

pub awake-KeyedRecords : KeyedRecords awake.store.state.sessions
unfolding put get
awake-KeyedRecords = KeyedRecords-put awake "s" [] (running box) none_stored

awake-hibernate : (hibernate deps "s" (some true) awake).0 ≡ ok true
unfolding hibernate suspend suspend_running put_away hibernate_sandbox get_record get put delete
    ◌>>=◌ gets pure lift catch raise backend_for find_backend owner or_orphaned store_set on_store
    set_record persist and_then written_file file_after outside outside_silent client_for call_hooks
    detach evict drop
awake-hibernate = refl

hibernate-Parked_example : Parked "s" (hibernate deps "s" (some true) awake).1
hibernate-Parked_example =
    hibernate-Parked deps "s" (some true) awake true awake-KeyedRecords refl awake-hibernate

awake-found : get_record awake.store "s" ≡ some (running box)
unfolding get_record get
awake-found = refl

awake-owner : find_backend registry (running box) ≡ some backend
unfolding find_backend owner get
awake-owner = refl

awake-release : (release deps "s" (some true) awake).0 ≡ ok tt
unfolding release release_guarded release_found release_session release_owned destroy_released
    forget_session get_record get put delete ◌>>=◌ gets pure catch raise find_backend owner
    store_delete on_store delete_record persist and_then written_file file_after outside
    outside_silent call_hooks evict drop remove_files both first_error change_files written
awake-release = refl

release-Forgotten_example : Forgotten "s" (release deps "s" (some true) awake).1
release-Forgotten_example =
    release-Forgotten deps "s" (some true) awake (running box) backend awake-KeyedRecords
      awake-found awake-owner refl awake-release

t-apart : ¬ (◌≡◌ {A = String} "t" "s")
t-apart = ground (arith, eq_iff "t" "s")

u-apart : ¬ (◌≡◌ {A = String} "u" "s")
u-apart = ground (arith, eq_iff "u" "s")

perform_all-holding_example :
    holding
      (perform_all deps awake
        (("t", ensuring no_repository) ∷ ("u", releasing none) ∷ ("t", hibernating none) ∷ []))
      "s"
    ≡ holding awake "s"
perform_all-holding_example =
    perform_all-holding deps awake
      (("t", ensuring no_repository) ∷ ("u", releasing none) ∷ ("t", hibernating none) ∷ []) "s"
      awake-KeyedRecords (t-apart, (u-apart, (t-apart, tt)))
