-- ===== src/Lifecycle/Backed/Files.antt =====
-- Writing and removing a session's checkpoint files: each write alone may fail.
use dsh_yawn.Base.{String, Option, none, some, [], ◌∷◌}
use dsh_yawn.Dict.{Dict, put, get-put_self}
use dsh_yawn.Exec.{Error}
use dsh_yawn.Exec.Hoare.{Keeps, Ensures, OnOk, Keeps→Ensures, Ensures-bind}
use dsh_yawn.Exec.Leaves.{Leaves, Leaves-Keeps, Keeps-Leaves, Leaves-bind_ensured}
use dsh_yawn.Records.{Bytes}
use dsh_yawn.World.{World, change_files, written}
use dsh_yawn.World.Rules.{Keeps-both}
use dsh_yawn.Lifecycle.{Deps, save_files, remove_files}
use dsh_yawn.Lifecycle.Backed.{Backed, Light, Stocked, Stocked-Backed}

module _ {E : Type 0} (d : Deps E) (id : String) where
  written-Backed :
      (w w' : World E) (r : Option Error × E)
      → Backed id w
      → Backed id w'
      → Backed id (written w r w').1
  unfolding written
  written-Backed w w' (none, e) p p' = record { covers = p'.covers }
  written-Backed w w' (some x, e) p p' = record { covers = p.covers }

  written-Light :
      (w w' : World E) (r : Option Error × E)
      → Light id w
      → Light id w'
      → Light id (written w r w').1
  unfolding written
  written-Light w w' (none, e) p p' = record { needless = p'.needless }
  written-Light w w' (some x, e) p p' = record { needless = p.needless }

  written-Stocked :
      (w w' : World E) (r : Option Error × E)
      → Stocked id w'
      → OnOk (λ _. Stocked id) (written w r w').0 (written w r w').1
  unfolding written
  written-Stocked w w' (none, e) p = record { bundle = p.bundle; is_saved = p.is_saved }
  written-Stocked w w' (some x, e) p = tt

  pub Light-remove_files : (j : String) → Keeps (Light id) (remove_files d j)
  unfolding remove_files change_files
  Light-remove_files j =
      Keeps-both
        (record {
          keeps = λ w p.
              written-Light w _ (d.host.write_file w.env) p (record { needless = p.needless });
        })
        (record {
          keeps = λ w p.
              written-Light w _ (d.host.write_file w.env) p (record { needless = p.needless });
        })

  written-Stocked_kept :
      (w w' : World E) (r : Option Error × E)
      → Stocked id w
      → Stocked id w'
      → Stocked id (written w r w').1
  unfolding written
  written-Stocked_kept w w' (none, e) p p' = record { bundle = p'.bundle; is_saved = p'.is_saved }
  written-Stocked_kept w w' (some x, e) p p' = record { bundle = p.bundle; is_saved = p.is_saved }

  Stocked-put : (w : World E) (b : Bytes) → Stocked id (record w { bundles = put w.bundles id b })
  Stocked-put w b = record { bundle = b; is_saved = get-put_self w.bundles id b }

  -- One file of the checkpoint written: the bundle, and what stands beside it.
  bundle_written :
      (b : Bytes)
      → Keeps (Backed id) (change_files d.host (λ w. record w { bundles = put w.bundles id b }))
  unfolding change_files
  bundle_written b = record {
    keeps = λ w p.
        written-Backed w _ (d.host.write_file w.env) p (Stocked-Backed id _ (Stocked-put w b));
  }

  bundle_written-Stocked :
      (b : Bytes)
      → Ensures
          (Backed id)
          (change_files d.host (λ w. record w { bundles = put w.bundles id b }))
          (λ _. Stocked id)
  unfolding change_files
  bundle_written-Stocked b = record {
    ensures = λ w p. written-Stocked w _ (d.host.write_file w.env) (Stocked-put w b);
  }

  archive_changed :
      (f : World E → Dict Bytes)
      → Keeps (Stocked id) (change_files d.host (λ w. record w { archives = f w }))
  unfolding change_files
  archive_changed f = record {
    keeps = λ w p.
        written-Stocked_kept w _ (d.host.write_file w.env) p
          (record { bundle = p.bundle; is_saved = p.is_saved });
  }

  pub save_files-Backed :
      (bundle archive : Bytes) → Keeps (Backed id) (save_files d id bundle archive)
  unfolding save_files
  save_files-Backed bundle archive = Leaves-Keeps (by_archive archive)
    where
      by_archive :
          (archive : Bytes) → Leaves (Backed id) (save_files d id bundle archive) (Backed id)
      by_archive [] =
          Leaves-bind_ensured (Stocked id) (Keeps-Leaves (λ w p. p) (bundle_written bundle))
            (bundle_written-Stocked bundle)
            (λ _. Keeps-Leaves (Stocked-Backed id) (archive_changed _))
      by_archive (b ∷ bs) =
          Leaves-bind_ensured (Stocked id) (Keeps-Leaves (λ w p. p) (bundle_written bundle))
            (bundle_written-Stocked bundle)
            (λ _. Keeps-Leaves (Stocked-Backed id) (archive_changed _))

  pub save_files-Stocked :
      (bundle archive : Bytes)
      → Ensures (Backed id) (save_files d id bundle archive) (λ _. Stocked id)
  unfolding save_files
  save_files-Stocked bundle [] =
      Ensures-bind (λ _. Stocked id) (bundle_written-Stocked bundle)
        (λ _. Keeps→Ensures (archive_changed _))
  save_files-Stocked bundle (b ∷ bs) =
      Ensures-bind (λ _. Stocked id) (bundle_written-Stocked bundle)
        (λ _. Keeps→Ensures (archive_changed _))
