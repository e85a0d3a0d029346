-- ===== src/ArchiveRelease/Spared.antt =====
-- Which sessions a reconcile leaves alone.
use dsh_yawn.Base.{
  ◌≡◌, refl, sym, ap, subst, String, Bool, true, false, not, ◌&&◌, ◌⊎◌, inl, inr, some, List, [],
  ◌∷◌, map, keep, contains, All, arith, ◌∙◌, String-cases,
}
use dsh_yawn.Exec.{gets, pure, ◌>>=◌}
use dsh_yawn.Records.{SessionRecord, base_of}
use dsh_yawn.Store.{all_records}
use dsh_yawn.World.{World}
use dsh_yawn.Lifecycle.{Deps}
use dsh_yawn.Lifecycle.Machine.{release, release_guarded}
use dsh_yawn.Lifecycle.Isolation.{KeyedRecords, holding}
use dsh_yawn.Lifecycle.Histories.{Verb, releasing, perform, perform_all, perform-Apart}
use dsh_yawn.ArchiveRelease.{release_call, release_calls, reconcile}

All-map-keep :
    {A B : Type 0} (p : A → Bool) (P : B → Type 0) (f : A → B) (xs : List A)
    → ((x : A) → p x ≡ true → P (f x))
    → All P (map f (keep p xs))
All-map-keep p P f [] h = tt
All-map-keep p P f (x ∷ xs) h = by_test (All-map-keep p P f xs h) (p x) refl
  where
    by_test :
        All P (map f (keep p xs))
        → (b : Bool) → p x ≡ b
        → All P (map f (elim b [ true ↦ x ∷ keep p xs | false ↦ keep p xs ]))
    by_test rest true e = (h x e, rest)
    by_test rest false e = rest

module _ {E : Type 0} (d : Deps E) where
  -- A release that its guard refuses does nothing at all.
  refused-perform : (w : World E) (id : String) → perform d w id (releasing (some false)) ≡ w
  unfolding perform release release_guarded gets pure ◌>>=◌
  refused-perform w id = refl

  -- A call of another session, or one that its guard refuses.
  abbrev Spares : String → String × Verb E → Type 0
  Spares j (id, v) = (¬ (id ≡ j)) ⊎ (v ≡ releasing (some false))

  perform_all-spared :
      (w : World E) (calls : List (String × Verb E)) (j : String)
      → KeyedRecords w.store.state.sessions
      → All (Spares j) calls
      → holding (perform_all d w calls) j ≡ holding w j
  unfolding perform_all
  perform_all-spared w [] j keyed spares = refl
  perform_all-spared w ((id, v) ∷ calls) j keyed (inl ne, spares) =
      let p = perform-Apart d w id v keyed in
      perform_all-spared (perform d w id v) calls j p.keyed spares ∙ p.others j ne
  perform_all-spared w ((id, v) ∷ calls) j keyed (inr refused, spares) =
      let p = perform-Apart d w id v keyed in
      perform_all-spared (perform d w id v) calls j p.keyed spares
      ∙ ap (λ u. holding (perform d w id u) j) refused
      ∙ ap (λ x. holding x j) (refused-perform w id)

  module _ (archived : List String) (live : String → Bool) where
    release_call-Spares :
        (j : String) (r : SessionRecord)
        → (contains archived j && not (live j)) ≡ false
        → contains archived (base_of r).session_id ≡ true
        → Spares j (release_call d archived live r)
    unfolding release_call
    release_call-Spares j r e named = elim (String-cases (base_of r).session_id j) [
      | inr other ↦ inl other
      | inl here ↦
          let is_live = subst (λ i. contains archived i ≡ true) here named in
          let busy = subst (λ i. live i ≡ true) (sym here) (ground (arith, e, is_live)) in
          inr (ap (λ b. releasing (some (not b))) busy)
    ]

    release_calls-Spares :
        (records : List SessionRecord) (j : String)
        → (contains archived j && not (live j)) ≡ false
        → All (Spares j) (release_calls d archived live records)
    unfolding release_calls
    release_calls-Spares records j e =
        All-map-keep (λ r. contains archived (base_of r).session_id) (Spares j)
          (release_call d archived live) records (λ r named. release_call-Spares j r e named)

    -- If every stored record names its session, a reconcile leaves the record, the pending profile,
    -- the checkpoint files and the cached runner of every session that is not archived, or has an
    -- open turn, as they were.
    pub reconcile-holding :
        (w : World E) (j : String)
        → KeyedRecords w.store.state.sessions
        → (contains archived j && not (live j)) ≡ false
        → holding (reconcile d archived live w) j ≡ holding w j
    unfolding reconcile
    reconcile-holding w j keyed e =
        perform_all-spared w (release_calls d archived live (all_records w.store)) j keyed
          (release_calls-Spares (all_records w.store) j e)
