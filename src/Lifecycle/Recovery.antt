-- ===== src/Lifecycle/Recovery.antt =====
-- Boot recovery: what the turn of one stored record keeps, and what it keeps of the other sessions.
pub mod Turns
pub mod Lapsed
pub mod Answered
pub mod Returned
use dsh_yawn.Base.{
  ◌≡◌, refl, ap, ◌∙◌, ◌⊎◌, inl, inr, String, Bool, Option, none, some, List, [], ◌∷◌, All,
}
use dsh_yawn.Dict.{get}
use dsh_yawn.Exec.{Result, ok, err, gets, continue, ◌>>=◌, on_not_found}
use dsh_yawn.Exec.Hoare.{Keeps, Keeps-pure, Keeps-gets, Keeps-bind, Keeps-if, Keeps-on_not_found}
use dsh_yawn.Records.{SessionRecord, running, hibernated, checkpointed, base_of, expires_at}
use dsh_yawn.Store.{Loaded, all_records}
use dsh_yawn.Registry.{SandboxBackend, find_backend}
use dsh_yawn.World.{World, warn}
use dsh_yawn.World.Rules.{IsInner, Keeps-outside, Keeps-warn}
use dsh_yawn.Lifecycle.{Deps}
use dsh_yawn.Lifecycle.Machine.{
  lapsed, react_release, put_deadline, boot_parked, boot_record, boot_records, load, boot, release,
  release_guarded,
}
use dsh_yawn.Lifecycle.Frame.Verbs.{Keeps-release}
use dsh_yawn.Lifecycle.Isolation.{KeyedRecords, Keyed, holding, Holding, Apart, Apart-IsLocal}

abbrev IsRunning : SessionRecord → Type 0
IsRunning (running r) = Unit
IsRunning (hibernated r deadline) = ⊥
IsRunning (checkpointed b saved deadline) = ⊥

module _ {E : Type 0} (d : Deps E) where
  -- A condition that the release of a record's session keeps, the record's turn keeps.
  module _ {P : World E → Type 0} {id : String} (inner : IsInner P id) (r : SessionRecord)
      (released : Keeps P (react_release d (base_of r).session_id)) where
    Keeps-put_deadline : (b : SandboxBackend E) → Keeps P (put_deadline d r b)
    unfolding put_deadline
    Keeps-put_deadline b = by_state r released
      where
        by_state :
            (r : SessionRecord)
            → Keeps P (react_release d (base_of r).session_id)
            → Keeps P (put_deadline d r b)
        by_state (running r) k = Keeps-pure tt
        by_state (checkpointed c s deadline) k = Keeps-pure tt
        by_state (hibernated r none) k = Keeps-pure tt
        by_state (hibernated r (some deadline)) k = Keeps-on_not_found (Keeps-outside inner _) k

    Keeps-boot_parked : (b : SandboxBackend E) → Keeps P (boot_parked d r b)
    unfolding boot_parked
    Keeps-boot_parked b =
        Keeps-bind (Keeps-gets _) (λ time. Keeps-if _ released (Keeps-put_deadline b))

  pub Keeps-boot_record :
      {P : World E → Type 0} {id : String}
      → IsInner P id
      → (r : SessionRecord) → Keeps P (react_release d (base_of r).session_id)
      → (o : Option (SandboxBackend E)) → Keeps P (boot_record d r o)
  unfolding boot_record
  Keeps-boot_record inner r released none = Keeps-warn inner _
  Keeps-boot_record inner (running r) released (some b) = Keeps-pure tt
  Keeps-boot_record inner (hibernated r deadline) released (some b) =
      Keeps-boot_parked inner (hibernated r deadline) released b
  Keeps-boot_record inner (checkpointed c s deadline) released (some b) =
      Keeps-boot_parked inner (checkpointed c s deadline) released b

  pub react_release-Apart :
      (start : World E) (id : String) → Keeps (Apart start id) (react_release d id)
  unfolding react_release release release_guarded
  react_release-Apart start id = Keeps-release (Apart-IsLocal start id d) none

  pub boot_record-Apart :
      (start : World E) (r : SessionRecord) (o : Option (SandboxBackend E))
      → Keeps (Apart start (base_of r).session_id) (boot_record d r o)
  boot_record-Apart start r o =
      Keeps-boot_record (Apart-IsLocal start _ d).inner r (react_release-Apart start _) o

  -- The turn of this record releases nothing of the session: it is another session's, its sandbox
  -- runs, or no configured backend owns it.
  abbrev pub IsSpared : String → SessionRecord → Type 0
  IsSpared j r = (¬ ((base_of r).session_id ≡ j) ⊎ IsRunning r) ⊎ (find_backend d.registry r ≡ none)

  module _ (j : String) (h : Holding) where
    -- The records are keyed and the session holds what it held.
    pub record Steady (w : World E) : Type 0 where
      pub keyed : KeyedRecords w.store.state.sessions
      pub held : holding w j ≡ h

    Keeps-other :
        (r : SessionRecord) (o : Option (SandboxBackend E))
        → ¬ ((base_of r).session_id ≡ j)
        → Keeps Steady (boot_record d r o)
    Keeps-other r o ne = record {
      keeps = λ w p.
          let q =
            (boot_record-Apart w r o).keeps w
              (record { keyed = p.keyed; others = λ i i_ne. refl }) in
          record { keyed = q.keyed; held = q.others j ne ∙ p.held };
    }

    Keeps-warned : (m : String) → Keeps Steady (warn m)
    unfolding warn
    Keeps-warned m = record { keeps = λ w p. record { keyed = p.keyed; held = p.held } }

    Keeps-no_backend :
        (r : SessionRecord) (o : Option (SandboxBackend E))
        → o ≡ none
        → Keeps Steady (boot_record d r o)
    unfolding boot_record
    Keeps-no_backend r o e = rw e (Keeps-warned _)

    Keeps-running :
        (r : SessionRecord) (o : Option (SandboxBackend E))
        → IsRunning r
        → Keeps Steady (boot_record d r o)
    unfolding boot_record
    Keeps-running (running r) none is = Keeps-warned _
    Keeps-running (running r) (some b) is = Keeps-pure tt
    Keeps-running (hibernated r deadline) o is = elim is [ ]
    Keeps-running (checkpointed b saved deadline) o is = elim is [ ]

    Keeps-spared :
        (r : SessionRecord)
        → IsSpared j r
        → Keeps Steady (boot_record d r (find_backend d.registry r))
    Keeps-spared r (inl (inl ne)) = Keeps-other r _ ne
    Keeps-spared r (inl (inr is)) = Keeps-running r _ is
    Keeps-spared r (inr e) = Keeps-no_backend r _ e

    Keeps-boot_records :
        (rs : List SessionRecord) → All (IsSpared j) rs → Keeps Steady (boot_records d rs)
    unfolding boot_records
    Keeps-boot_records [] spared = Keeps-pure tt
    Keeps-boot_records (r ∷ rs) (s, spared) =
        Keeps-bind (Keeps-spared r s) (λ _. Keeps-boot_records rs spared)

  -- If every loaded record names the session it is stored for, and each of them is another session's,
  -- is running or has no configured backend, a boot leaves the session's record, pending profile,
  -- checkpoint files and cached runner as they were loaded, wherever it throws.
  pub boot-holding :
      (loaded : Loaded) (w : World E) (j : String)
      → KeyedRecords (load loaded w).1.store.state.sessions
      → All (IsSpared j) (all_records (load loaded w).1.store)
      → holding (boot d loaded w).1 j ≡ holding (load loaded w).1 j
  unfolding boot ◌>>=◌ gets
  boot-holding loaded w j keyed spared = after (load loaded w) keyed spared
    where
      after :
          (r : Result (Unit {0}) × World E)
          → KeyedRecords r.1.store.state.sessions
          → All (IsSpared j) (all_records r.1.store)
          → holding
              (continue r.0
                (λ _. gets (λ w. all_records w.store) >>= λ records. boot_records d records)
                r.1).1
              j
            ≡ holding r.1 j
      after (ok _, w') keyed spared =
          ((Keeps-boot_records j (holding w' j) _ spared).keeps w'
            (record { keyed = keyed; held = refl })).held
      after (err e, w') keyed spared = refl
