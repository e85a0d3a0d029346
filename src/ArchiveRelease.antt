-- ===== src/ArchiveRelease.antt =====
-- control-plane/src/sandbox/manager/archive-release.ts: the sandboxes of archived sessions are
-- released. The releases that run at once on different sessions are one history of them, in the order
-- of the records; `live` is what each release's guard finds under its session's lock.
pub mod Spared
use dsh_yawn.Base.{String, Bool, not, some, List, [], ◌∷◌, map, keep, contains}
use dsh_yawn.Records.{SessionRecord, base_of}
use dsh_yawn.Store.{all_records}
use dsh_yawn.World.{World}
use dsh_yawn.Lifecycle.{Deps}
use dsh_yawn.Lifecycle.Histories.{Verb, releasing, perform_all}

module _ {E : Type 0} (d : Deps E) (archived : List String) (live : String → Bool) where
  pub release_call : SessionRecord → String × Verb E
  release_call r = let id = (base_of r).session_id in (id, releasing (some (not (live id))))

  pub release_calls : List SessionRecord → List (String × Verb E)
  unfolding release_call
  release_calls records =
      map release_call (keep (λ r. contains archived (base_of r).session_id) records)

  -- A release that fails is a warning, and leaves what it did.
  unfoldable pub reconcile : World E → World E
  reconcile w = perform_all d w (release_calls (all_records w.store))
