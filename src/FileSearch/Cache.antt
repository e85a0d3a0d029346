-- ===== src/FileSearch/Cache.antt =====
-- control-plane/src/workspaces/file-reference.ts: the snapshots of the workspace trees, and when one
-- answers a query. A walk of the tree ends in an event; the disposal of agents
-- and the warning on a partial index are left out.
pub mod Kept
pub mod Fresh
use dsh_yawn.Base.{
  ℕ, ◌+◌, String, Bool, true, false, Option, none, some, List, [], ◌∷◌, ltb, or_default,
  if◌then◌else◌,
}
use dsh_yawn.Dict.{Dict, get, put, delete}
use dsh_yawn.FileSearch.{FileReferenceCandidate}

pub record FileIndex : Type 0 where
  pub entries : List FileReferenceCandidate
  pub truncated : Bool

pub record Snapshot : Type 0 where
  pub entries : List FileReferenceCandidate
  pub started_at : ℕ

-- A refresh that is under way is the count of invalidations that it started at.
pub record FileReferences : Type 0 where
  pub snapshots : Dict Snapshot
  pub refreshes : Dict ℕ
  pub invalidations : Dict ℕ

unfoldable pub fresh : FileReferences
fresh = record { snapshots = []; refreshes = []; invalidations = [] }

pub invalidation_count : FileReferences → String → ℕ
invalidation_count s agent = or_default (get s.invalidations agent) 0

pub invalidate : FileReferences → String → FileReferences
unfolding invalidation_count
invalidate s agent = record s {
  invalidations = put s.invalidations agent (invalidation_count s agent + 1);
}

-- What a query is answered from: the snapshot that is there, or the refresh that is waited for.
pub data Answer : Type 0 where
  settled : Snapshot → Answer
  refreshing : Answer

unfoldable pub refresh : FileReferences → String → FileReferences
unfolding invalidation_count
refresh s agent = elim (get s.refreshes agent) [
  | some started ↦ s
  | none ↦ record s { refreshes = put s.refreshes agent (invalidation_count s agent) }
]

pub snapshot_found :
    FileReferences → String → (prefer_fresh : Bool) → Option Snapshot → Answer × FileReferences
unfolding refresh invalidation_count
snapshot_found s agent prefer_fresh none = (refreshing, refresh s agent)
snapshot_found s agent prefer_fresh (some found) =
    if ltb found.started_at (invalidation_count s agent)
    then (if prefer_fresh then refreshing else settled found, refresh s agent)
    else (settled found, s)

pub snapshot : FileReferences → String → (prefer_fresh : Bool) → Answer × FileReferences
unfolding snapshot_found
snapshot s agent prefer_fresh = snapshot_found s agent prefer_fresh (get s.snapshots agent)

-- The walk of a refresh came to an index, to none (there is no sandbox), or to an error.
pub data Walked : Type 0 where
  indexed : FileIndex → Walked
  no_sandbox : Walked
  failed : Walked

pub put_snapshot : FileReferences → String → ℕ → Walked → FileReferences
put_snapshot s agent started (indexed index) = record s {
  snapshots = put s.snapshots agent (record { entries = index.entries; started_at = started });
}
put_snapshot s agent started no_sandbox = s
put_snapshot s agent started failed = s

unfoldable pub refreshed : FileReferences → String → Walked → FileReferences
unfolding put_snapshot
refreshed s agent walked = elim (get s.refreshes agent) [
  | none ↦ s
  | some started ↦
      put_snapshot (record s { refreshes = delete s.refreshes agent }) agent started walked
]

pub data Event : Type 0 where
  asked : String → (prefer_fresh : Bool) → Event
  tool_result : String → Event
  walk_ended : String → Walked → Event

unfoldable pub handle : FileReferences → Event → FileReferences
unfolding snapshot invalidate refreshed
handle s (asked agent prefer_fresh) = (snapshot s agent prefer_fresh).1
handle s (tool_result agent) = invalidate s agent
handle s (walk_ended agent walked) = refreshed s agent walked

unfoldable pub run : FileReferences → List Event → FileReferences
unfolding handle
run s [] = s
run s (event ∷ events) = run (handle s event) events
