-- ===== src/FileSearch/Cache/Kept.antt =====
-- What an event changes of what is kept of one agent.
use dsh_yawn.Base.{
  ℕ, ◌+◌, ◌≡◌, ap, String, Bool, Option, none, some, ltb, or_default, if◌then◌else◌, arith, ◌==◌,
  eq_iff, inl, inr, Option-cases,
}
use dsh_yawn.Dict.{get, delete, get-put, get-delete}
use dsh_yawn.FileSearch.Cache.{
  Snapshot, FileReferences, invalidation_count, invalidate, refresh, snapshot_found, snapshot,
  Walked, indexed, no_sandbox, failed, put_snapshot, refreshed, Event, asked, tool_result,
  walk_ended, handle,
}

-- What the service keeps of one agent.
pub record Kept : Type 0 where
  pub count : ℕ
  pub started : Option ℕ
  pub found : Option Snapshot

abbrev pub kept_of : FileReferences → String → Kept
kept_of s a = record {
  count = invalidation_count s a;
  started = get s.refreshes a;
  found = get s.snapshots a;
}

abbrev pub after_ask : Kept → Option Snapshot → Kept
after_ask k none = record k { started = some (or_default k.started k.count) }
after_ask k (some n) =
    if ltb n.started_at k.count
    then record k { started = some (or_default k.started k.count) }
    else k

abbrev pub after_walk : Kept → Walked → Option ℕ → Kept
after_walk k w none = k
after_walk k (indexed index) (some b) = record k {
  started = none;
  found = some (record { entries = index.entries; started_at = b });
}
after_walk k no_sandbox (some b) = record k { started = none }
after_walk k failed (some b) = record k { started = none }

abbrev pub kept_after : String → Kept → Event → Kept
kept_after a k (asked agent prefer_fresh) = if agent == a then after_ask k k.found else k
kept_after a k (tool_result agent) = if agent == a then record k { count = k.count + 1 } else k
kept_after a k (walk_ended agent walked) = if agent == a then after_walk k walked k.started else k

module _ (s : FileReferences) (agent a : String) where
  refresh-kept : kept_of (refresh s agent) a ≡ (
      if agent == a
      then record (kept_of s a) {
        started = some (or_default (get s.refreshes a) (invalidation_count s a));
      }
      else kept_of s a)
  unfolding refresh invalidation_count
  refresh-kept = elim (Option-cases (get s.refreshes agent)) [
    | inl lost ↦
        ground
          (arith, lost, eq_iff agent a, get-put s.refreshes agent a (invalidation_count s agent))
    | inr (n, there) ↦ ground (arith, there, eq_iff agent a)
  ]

  invalidate-kept : kept_of (invalidate s agent) a ≡ (
      if agent == a
      then record (kept_of s a) { count = invalidation_count s a + 1 }
      else kept_of s a)
  unfolding invalidate invalidation_count
  invalidate-kept =
      ground
        (arith, eq_iff agent a, get-put s.invalidations agent a (invalidation_count s agent + 1))

  snapshot_found-kept :
      (prefer_fresh : Bool) (o : Option Snapshot)
      → (agent ≡ a → o ≡ get s.snapshots a)
      → kept_of (snapshot_found s agent prefer_fresh o).1 a
        ≡ (if agent == a then after_ask (kept_of s a) (get s.snapshots a) else kept_of s a)
  unfolding snapshot_found invalidation_count
  snapshot_found-kept prefer_fresh none e = ground (arith, refresh-kept, eq_iff agent a, e)
  snapshot_found-kept prefer_fresh (some n) e = ground (arith, refresh-kept, eq_iff agent a, e)

  put_snapshot-kept :
      (started : ℕ) (walked : Walked)
      → get s.refreshes agent ≡ some started
      → kept_of
          (put_snapshot (record s { refreshes = delete s.refreshes agent }) agent started walked)
          a
        ≡ (if agent == a then after_walk (kept_of s a) walked (get s.refreshes a) else kept_of s a)
  unfolding put_snapshot invalidation_count
  put_snapshot-kept started (indexed index) e = ground (
    arith,
    e,
    eq_iff agent a,
    get-delete s.refreshes agent a,
    get-put s.snapshots agent a (record { entries = index.entries; started_at = started }),
  )
  put_snapshot-kept started no_sandbox e =
      ground (arith, e, eq_iff agent a, get-delete s.refreshes agent a)
  put_snapshot-kept started failed e =
      ground (arith, e, eq_iff agent a, get-delete s.refreshes agent a)

  refreshed-kept :
      (walked : Walked)
      → kept_of (refreshed s agent walked) a
        ≡ (if agent == a then after_walk (kept_of s a) walked (get s.refreshes a) else kept_of s a)
  unfolding refreshed
  refreshed-kept walked = elim (Option-cases (get s.refreshes agent)) [
    | inl lost ↦ ground (arith, lost, eq_iff agent a)
    | inr (n, there) ↦ ground (arith, there, put_snapshot-kept n walked there)
  ]

pub handle-kept :
    (s : FileReferences) (event : Event) (a : String)
    → kept_of (handle s event) a ≡ kept_after a (kept_of s a) event
unfolding handle snapshot
handle-kept s (asked agent prefer_fresh) a =
    snapshot_found-kept s agent a prefer_fresh (get s.snapshots agent) (ap (get s.snapshots))
handle-kept s (tool_result agent) a = invalidate-kept s agent a
handle-kept s (walk_ended agent walked) a = refreshed-kept s agent a walked
