-- ===== src/Lifecycle/Forgotten.antt =====
-- What is left of a session that the host forgot, and why two rounds of `react` are enough.
use dsh_yawn.Base.{◌≡◌, String, Option, none, some, List, [], ◌∷◌}
use dsh_yawn.Dict.{get, get-delete_self}
use dsh_yawn.Exec.{Error, Result}
use dsh_yawn.Exec.Hoare.{Keeps, Ensures, OnOk, Keeps→Ensures, Keeps-pure, Keeps-bind, Ensures-bind}
use dsh_yawn.Exec.Outcomes.{Anywhere, Ensures-then, Ensures-always, Ensures-both}
use dsh_yawn.Records.{SessionRecord, base_of}
use dsh_yawn.Store.Memory.{delete_record-state}
use dsh_yawn.World.{World, on_store, change_files, written}
use dsh_yawn.World.Rules.{Keeps-outside_env}
use dsh_yawn.Lifecycle.{
  Hooks, Deps, store_delete, call_hook, call_hooks, remove_files, forget_session,
}
use dsh_yawn.Lifecycle.Stopping.{reclaim_expired}

module _ {E : Type 0} (id : String) where
  -- No record, no checkpoint files.
  pub record Forgotten (w : World E) : Type 0 where
    pub no_record : get w.store.state.sessions id ≡ none
    pub no_bundle : get w.bundles id ≡ none
    pub no_archive : get w.archives id ≡ none

  abbrev pub Absent : World E → Type 0
  Absent w = get w.store.state.sessions id ≡ none

module _ {E : Type 0} (d : Deps E) (id : String) where
  pub store_delete-Absent : {P : World E → Type 0} → Ensures P (store_delete d id) (λ _. Absent id)
  unfolding store_delete on_store
  store_delete-Absent = Ensures-always (Absent id) (λ w p.
      rw (delete_record-state d.host.write w.store id w.env)
        (get-delete_self w.store.state.sessions id))

  written-no_bundle :
      (w w' : World E) (r : Option Error × E)
      → Absent id w'
      → get w'.bundles id ≡ none
      → OnOk
          (λ _ w''. Absent id w'' × get w''.bundles id ≡ none)
          (written w r w').0
          (written w r w').1
  unfolding written
  written-no_bundle w w' (none, e) p q = (p, q)
  written-no_bundle w w' (some x, e) p q = tt

  written-Forgotten :
      (w w' : World E) (r : Option Error × E)
      → Forgotten id w'
      → OnOk (λ _. Forgotten id) (written w r w').0 (written w r w').1
  unfolding written
  written-Forgotten w w' (none, e) p = record {
    no_record = p.no_record;
    no_bundle = p.no_bundle;
    no_archive = p.no_archive;
  }
  written-Forgotten w w' (some x, e) p = tt

  remove_files-Forgotten : Ensures (Absent id) (remove_files d id) (λ _. Forgotten id)
  unfolding remove_files change_files
  remove_files-Forgotten =
      Ensures-both (λ w. Absent id w × get w.bundles id ≡ none)
        (record {
          ensures = λ w p.
              written-no_bundle w _ (d.host.write_file w.env) p (get-delete_self w.bundles id);
        })
        (record {
          ensures = λ w p. written-Forgotten w _ (d.host.write_file w.env) (record {
            no_record = p.0;
            no_bundle = p.1;
            no_archive = get-delete_self w.archives id;
          });
        })

  Keeps-call_hooks :
      (pick : Hooks E → Option (E → Result (Unit {0}) × E)) (xs : List (Hooks E))
      → Keeps (Forgotten id) (call_hooks d pick xs)
  unfolding call_hooks
  Keeps-call_hooks pick [] = Keeps-pure tt
  Keeps-call_hooks pick (x ∷ xs) = Keeps-bind (called (pick x)) (λ _. Keeps-call_hooks pick xs)
    where
      called : (o : Option (E → Result (Unit {0}) × E)) → Keeps (Forgotten id) (call_hook d o)
      called none = Keeps-pure tt
      called (some f) = Keeps-outside_env f (λ w e p. record {
        no_record = p.no_record;
        no_bundle = p.no_bundle;
        no_archive = p.no_archive;
      })

  pub forget_session-Forgotten : Ensures Anywhere (forget_session d id) (λ _. Forgotten id)
  unfolding forget_session
  forget_session-Forgotten =
      Ensures-bind (λ _. Absent id) store_delete-Absent
        (λ _.
          Ensures-bind (λ _. Forgotten id) remove_files-Forgotten
            (λ _. Keeps→Ensures (Keeps-call_hooks _ _)))

  pub reclaim_expired-Forgotten :
      (r : SessionRecord)
      → (base_of r).session_id ≡ id
      → Ensures Anywhere (reclaim_expired d r) (λ _. Forgotten id)
  unfolding reclaim_expired
  reclaim_expired-Forgotten r own = Ensures-then _ (λ _. forgotten_at _ own)
    where
      forgotten_at :
          (j : String) → j ≡ id → Ensures Anywhere (forget_session d j) (λ _. Forgotten id)
      forgotten_at j e = rw e forget_session-Forgotten
