-- ===== src/Lifecycle/Backed/Always.antt =====
-- No history of the three verbs leaves a checkpointed session without its bundle.
use dsh_yawn.Base.{
  ℕ, arith, ◌≡◌, refl, sym, subst, String, Option, none, some, List, [], ◌∷◌, ◌==◌, eq_iff,
  Bool-cases, inl, inr,
}
use dsh_yawn.Dict.{get}
use dsh_yawn.Exec.Leaves.{Keeps-and}
use dsh_yawn.Records.{Bytes, RecordBase, SessionRecord, checkpointed, Checkpoint}
use dsh_yawn.World.{World}
use dsh_yawn.Lifecycle.{Deps}
use dsh_yawn.Lifecycle.Frame.{IsLocal}
use dsh_yawn.Lifecycle.Frame.Verbs.{Keeps-ensure_running, Keeps-hibernate, Keeps-release}
use dsh_yawn.Lifecycle.Isolation.{KeyedRecords, Holding, Apart, Apart-IsLocal}
use dsh_yawn.Lifecycle.Histories.{
  Verb, ensuring, hibernating, releasing, perform, perform_all, perform-Apart,
}
use dsh_yawn.Lifecycle.Backed.{Covers, Backed, Backed-inner}
use dsh_yawn.Lifecycle.Backed.Steps.{Backed-set, Backed-forget, Backed-commit, Backed-finish}

module _ {E : Type 0} (d : Deps E) (start : World E) (id : String) where
  abbrev Both : World E → Type 0
  Both w = Apart start id w × Backed id w

  Both-IsLocal : IsLocal d Both id
  Both-IsLocal =
      let loc = Apart-IsLocal start id d in
      record {
        inner = record {
          env_free = λ w e p. (loc.inner.env_free w e p.0, (Backed-inner id).env_free w e p.1);
          warnings_free =
              λ w m p. (loc.inner.warnings_free w m p.0, (Backed-inner id).warnings_free w m p.1);
          cached = λ w c p. (loc.inner.cached w c p.0, (Backed-inner id).cached w c p.1);
          evicted = λ w p. (loc.inner.evicted w p.0, (Backed-inner id).evicted w p.1);
        };
        owned = λ w r p e. loc.owned w r p.0 e;
        set = λ r own has. Keeps-and (loc.set r own has) (Backed-set d id r own has);
        forget = Keeps-and loc.forget (Backed-forget d id);
        commit = λ r b time saved own.
            Keeps-and (loc.commit r b time saved own) (Backed-commit d id r b time saved own);
        finish = λ r saved c own.
            Keeps-and (loc.finish r saved c own) (Backed-finish d id r saved c own);
      }

-- Every session's checkpointed record has its bundle.
abbrev pub IsBacked : {E : Type 0} → World E → Type 0
IsBacked w = (j : String) → Backed j w

module _ {E : Type 0} (d : Deps E) where
  perform-own :
      (w : World E) (id : String) (v : Verb E)
      → KeyedRecords w.store.state.sessions
      → Backed id w
      → Both d w id (perform d w id v)
  unfolding perform
  perform-own w id v keyed backed = by_verb v
    where
      self : Both d w id w
      self = (record { keyed = keyed; others = λ j ne. refl }, backed)

      by_verb : (v : Verb E) → Both d w id (perform d w id v)
      by_verb (ensuring repository) =
          (Keeps-ensure_running (Both-IsLocal d w id) repository).keeps w self
      by_verb (hibernating guard) = (Keeps-hibernate (Both-IsLocal d w id) guard).keeps w self
      by_verb (releasing guard) = (Keeps-release (Both-IsLocal d w id) guard).keeps w self

  Covered : Holding → Type 0
  Covered h = Covers h.record_of h.bundle_of

  perform-IsBacked :
      (w : World E) (id : String) (v : Verb E)
      → KeyedRecords w.store.state.sessions
      → IsBacked w
      → IsBacked (perform d w id v)
  unfolding Covered
  perform-IsBacked w id v keyed backed j = elim (Bool-cases (id == j)) [
    | inl same ↦ subst (λ i. Backed i (perform d w id v)) ((eq_iff id j).0 same) own.1
    | inr other ↦ record {
      covers =
          subst Covered (sym (own.0.others j (λ e. ground (arith, eq_iff id j)))) (backed j).covers;
    }
  ]
    where
      own : Both d w id (perform d w id v)
      own = perform-own w id v keyed (backed id)

  perform_all-IsBacked :
      (w : World E) (calls : List (String × Verb E))
      → KeyedRecords w.store.state.sessions
      → IsBacked w
      → IsBacked (perform_all d w calls)
  unfolding perform_all
  perform_all-IsBacked w [] keyed backed = backed
  perform_all-IsBacked w ((id, v) ∷ calls) keyed backed =
      perform_all-IsBacked (perform d w id v) calls (perform-Apart d w id v keyed).keyed
        (perform-IsBacked w id v keyed backed)

  Covers-bundle :
      (r : Option SessionRecord) (o : Option Bytes) (b : RecordBase) (saved : Checkpoint)
      (deadline : Option ℕ)
      → r ≡ some (checkpointed b saved deadline)
      → Covers r o
      → (bundle : Bytes) × (o ≡ some bundle)
  Covers-bundle r none b saved deadline e c = absurd (subst (λ x. Covers x none) e c)
  Covers-bundle r (some bundle) b saved deadline e c = (bundle, refl)

  -- If every stored record names its session, and every session whose record is checkpointed has its
  -- bundle on disk, the latter is still so after any history of `ensureRunning`, `hibernate` and
  -- `release` calls, wherever one of them may have failed.
  pub perform_all-bundle :
      (w : World E) (calls : List (String × Verb E)) (j : String) (b : RecordBase)
      (saved : Checkpoint) (deadline : Option ℕ)
      → KeyedRecords w.store.state.sessions
      → IsBacked w
      → get (perform_all d w calls).store.state.sessions j ≡ some (checkpointed b saved deadline)
      → (bundle : Bytes) × (get (perform_all d w calls).bundles j ≡ some bundle)
  perform_all-bundle w calls j b saved deadline keyed backed e =
      Covers-bundle _ _ b saved deadline e (perform_all-IsBacked w calls keyed backed j).covers
