-- ===== src/Lifecycle/Recovery/Lapsed.antt =====
-- Boot recovery and the sessions whose retention ended while the host was down.
use dsh_yawn.Base.{ℕ, ◌≤◌, ◌≡◌, inl, inr, String, some, List, [], ◌∷◌, String-cases, arith, eq_iff}
use dsh_yawn.Dict.{Dict, get, values}
use dsh_yawn.Exec.{Exec, Result, ok, err, gets, continue, ◌>>=◌}
use dsh_yawn.Exec.Hoare.{Ensures, Ensures-bind, Ensures-pure}
use dsh_yawn.Exec.Outcomes.{Ensures-answer}
use dsh_yawn.Records.{SessionRecord, running, hibernated, checkpointed, base_of}
use dsh_yawn.Store.{Loaded, all_records}
use dsh_yawn.Registry.{SandboxBackend, find_backend}
use dsh_yawn.World.{World}
use dsh_yawn.Lifecycle.{Deps}
use dsh_yawn.Lifecycle.Machine.{boot_parked, boot_record, boot_records, load, boot}
use dsh_yawn.Lifecycle.Isolation.{KeyedRecords}
use dsh_yawn.Lifecycle.Forgotten.{Forgotten}
use dsh_yawn.Lifecycle.Recovery.Turns.{
  Left, Nothing, AtMost, IsOverdue, after_turn, release_Nothing, release_AtMost, own_parked,
}

module _ {E : Type 0} (d : Deps E) (j : String) where
  after_all :
      (rs : List SessionRecord) → Ensures (Left j Nothing) (boot_records d rs) (λ _. Left j Nothing)
  unfolding boot_records
  after_all [] = Ensures-pure tt _ (λ w p. p)
  after_all (r ∷ rs) =
      Ensures-bind (λ _. Left j Nothing) (after_turn d j (release_Nothing d j) r _)
        (λ _. after_all rs)

  module _ (t : ℕ) (r : SessionRecord) (b : SandboxBackend E)
      (owned : find_backend d.registry r ≡ some b) (overdue : IsOverdue r t)
      (clock : (e : E) → t ≤ d.host.now e) (own : (base_of r).session_id ≡ j) where
    own_turn :
        (v : SessionRecord)
        → v ≡ r
        → Ensures
            (Left j (AtMost r))
            (boot_record d v (find_backend d.registry v))
            (λ _. Left j Nothing)
    unfolding boot_record
    own_turn v e = rw (e, owned) (by_state r overdue (own_parked d j r b owned t overdue clock own))
      where
        by_state :
            (r : SessionRecord)
            → IsOverdue r t
            → Ensures (Left j (AtMost r)) (boot_parked d r b) (λ _. Left j Nothing)
            → Ensures (Left j (AtMost r)) (boot_record d r (some b)) (λ _. Left j Nothing)
        by_state (running r) is k = elim is [ ]
        by_state (hibernated r deadline) is k = k
        by_state (checkpointed c s deadline) is k = k

    released_in :
        (m : Dict SessionRecord)
        → get m j ≡ some r
        → Ensures (Left j (AtMost r)) (boot_records d (values m)) (λ _. Left j Nothing)
    unfolding boot_records get
    released_in [] e = ground arith
    released_in ((i, v) ∷ m) e = elim (String-cases i j) [
      | inl same ↦
          Ensures-bind (λ _. Left j Nothing) (own_turn v (ground (arith, eq_iff i j)))
            (λ _. after_all (values m))
      | inr ne ↦
          Ensures-bind (λ _. Left j (AtMost r)) (after_turn d j (release_AtMost d j r b owned) v _)
            (λ _. released_in m (ground (arith, eq_iff i j)))
    ]

  -- If the clock never shows a time before `t`, every loaded record names the session it is stored for,
  -- and the session's record is parked until a time at or before `t`, or until no date at all, under a
  -- configured backend, then a boot that returns leaves neither a record nor checkpoint files of it.
  pub returned-Forgotten :
      (loaded : Loaded) (w : World E) (t : ℕ) (r : SessionRecord) (b : SandboxBackend E)
      → ((e : E) → t ≤ d.host.now e)
      → KeyedRecords (load loaded w).1.store.state.sessions
      → get (load loaded w).1.store.state.sessions j ≡ some r
      → find_backend d.registry r ≡ some b
      → IsOverdue r t
      → (boot d loaded w).0 ≡ ok tt
      → Forgotten j (boot d loaded w).1
  unfolding boot all_records ◌>>=◌ gets KeyedRecords
  returned-Forgotten loaded w t r b clock keyed found owned overdue =
      after (load loaded w) keyed found
    where
      rest : Exec (World E) (Unit {0})
      rest = gets (λ w. all_records w.store) >>= λ records. boot_records d records

      after :
          (o : Result (Unit {0}) × World E)
          → KeyedRecords o.1.store.state.sessions
          → get o.1.store.state.sessions j ≡ some r
          → (continue o.0 (λ _. rest) o.1).0 ≡ ok tt
          → Forgotten j (continue o.0 (λ _. rest) o.1).1
      after (ok _, w') keyed found e =
          let p =
            Ensures-answer (released_in t r b owned overdue clock (keyed j r found) _ found) w' tt
              (record { keyed = keyed; left = inl found }) e in
          record { no_record = p.left.0; no_bundle = p.left.1; no_archive = p.left.2 }
      after (err x, w') keyed found e = ground arith
