-- ===== src/Lifecycle/Recovery/Turns.antt =====
-- Boot recovery: what the turn of one stored record leaves of a session.
use dsh_yawn.Base.{
  ℕ, ◌≤◌, ◌≡◌, refl, sym, subst, ◌⊎◌, inl, inr, String, true, Option, none, some, arith,
  String-cases,
}
use dsh_yawn.Dict.{get}
use dsh_yawn.Exec.{Result, ok, err, gets, ◌>>=◌, pure, not_found, failure}
use dsh_yawn.Exec.Hoare.{
  Keeps, Ensures, OnOk, Keeps→Ensures, Ensures-pure, Ensures-gets, Ensures-bind, Ensures-if,
  Ensures-raise, Keeps-gets, Ensures-after,
}
use dsh_yawn.Exec.Outcomes.{Ensures-to, Ensures-catch_kept, Ensures-given_and}
use dsh_yawn.Records.{Bytes, SessionRecord, running, hibernated, checkpointed, base_of, expires_at}
use dsh_yawn.Store.{get_record}
use dsh_yawn.Registry.{SandboxBackend, find_backend}
use dsh_yawn.World.{World}
use dsh_yawn.World.Rules.{IsInner, Keeps-outside, Keeps-warn}
use dsh_yawn.Lifecycle.{Deps, has_expired, passed}
use dsh_yawn.Lifecycle.Machine.{
  release_found, lapsed, react_release, put_deadline, boot_parked, boot_record,
}
use dsh_yawn.Lifecycle.Isolation.{KeyedRecords, Keyed, kept-Keyed, Holding, holding}
use dsh_yawn.Lifecycle.Stopping.{release_session}
use dsh_yawn.Lifecycle.Forgotten.{Forgotten}
use dsh_yawn.Lifecycle.Released.{release_owned-Forgotten}
use dsh_yawn.Lifecycle.Recovery.{react_release-Apart}

-- A parked record whose retention ends at this time or before, or at no date.
abbrev EndsBy : Option ℕ → ℕ → Type 0
EndsBy none time = Unit
EndsBy (some deadline) time = deadline ≤ time

abbrev pub IsOverdue : SessionRecord → ℕ → Type 0
IsOverdue (running r) time = ⊥
IsOverdue (hibernated r deadline) time = EndsBy deadline time
IsOverdue (checkpointed b saved deadline) time = EndsBy deadline time

overdue-lapsed :
    (r : SessionRecord) (t time : ℕ)
    → IsOverdue r t
    → t ≤ time
    → lapsed (expires_at r) r time ≡ true
unfolding lapsed has_expired passed
overdue-lapsed (running r) t time is le = elim is [ ]
overdue-lapsed (hibernated r none) t time is le = refl
overdue-lapsed (hibernated r (some deadline)) t time is le = ground arith
overdue-lapsed (checkpointed b saved none) t time is le = refl
overdue-lapsed (checkpointed b saved (some deadline)) t time is le = ground arith

-- Conditions on a session's record, bundle and archive.
abbrev pub Condition : Type 1
Condition = Option SessionRecord → Option Bytes → Option Bytes → Type 0

abbrev pub Nothing : Condition
Nothing found bundle archive = (found ≡ none) × (bundle ≡ none) × (archive ≡ none)

-- The record as it was loaded, until its turn; then nothing.
abbrev pub AtMost : SessionRecord → Condition
AtMost r found bundle archive = (found ≡ some r) ⊎ Nothing found bundle archive

module _ {E : Type 0} (j : String) where
  -- What the host holds for the session, while every stored record names its session.
  pub record Left (Q : Condition) (w : World E) : Type 0 where
    pub keyed : KeyedRecords w.store.state.sessions
    pub left : Q (get w.store.state.sessions j) (get w.bundles j) (get w.archives j)

  Left-inner : (Q : Condition) → IsInner (Left Q) j
  Left-inner Q = record {
    env_free = λ w e p. record { keyed = p.keyed; left = p.left };
    warnings_free = λ w m p. record { keyed = p.keyed; left = p.left };
    cached = λ w c p. record { keyed = p.keyed; left = p.left };
    evicted = λ w p. record { keyed = p.keyed; left = p.left };
  }

  Left-holding :
      (Q : Condition) (w w' : World E)
      → holding w' j ≡ holding w j
      → Q (get w.store.state.sessions j) (get w.bundles j) (get w.archives j)
      → Q (get w'.store.state.sessions j) (get w'.bundles j) (get w'.archives j)
  Left-holding Q w w' e q =
      subst (λ (h : Holding). Q h.record_of h.bundle_of h.archive_of) (sym e) q

module _ {E : Type 0} (d : Deps E) (j : String) where
  react_release-elsewhere :
      (Q : Condition) (i : String) → ¬ (i ≡ j) → Keeps (Left j Q) (react_release d i)
  react_release-elsewhere Q i ne = record {
    keeps = λ w p.
        let q =
          (react_release-Apart d w i).keeps w
            (record { keyed = p.keyed; others = λ k k_ne. refl }) in
        record {
          keyed = q.keyed;
          left = Left-holding j Q w (react_release d i w).1 (q.others j ne) p.left;
        };
  }

  react_release-Keyed : (i : String) → Keeps Keyed (react_release d i)
  react_release-Keyed i = kept-Keyed (λ start. react_release-Apart d start i)

  release_nothing :
      (w : World E) → get w.store.state.sessions j ≡ none → react_release d j w ≡ (ok tt, w)
  unfolding react_release release_found get_record gets ◌>>=◌ pure
  release_nothing w e = rw e refl

  module _ (r : SessionRecord) (b : SandboxBackend E)
      (owned : find_backend d.registry r ≡ some b) where
    release_loaded :
        (w : World E)
        → (base_of r).session_id ≡ j
        → get w.store.state.sessions j ≡ some r
        → OnOk (λ _. Forgotten j) (react_release d j w).0 (react_release d j w).1
    unfolding react_release release_found release_session get_record gets ◌>>=◌
    release_loaded w own found =
        rw (found, owned) ((release_owned-Forgotten d j r b own).ensures w tt)

  OnOk-Left :
      (r : Result (Unit {0})) (w : World E)
      → Keyed w
      → OnOk (λ _. Forgotten j) r w
      → OnOk (λ _. Left j Nothing) r w
  OnOk-Left (ok a) w keyed p = record {
    keyed = keyed;
    left = (p.no_record, p.no_bundle, p.no_archive);
  }
  OnOk-Left (err e) w keyed p = tt

  -- The release of any session, given what the session's own release does.
  release_any :
      (Q : Condition) (i : String)
      → Ensures (Left j Q) (react_release d j) (λ _. Left j Q)
      → Ensures (Left j Q) (react_release d i) (λ _. Left j Q)
  release_any Q i own = elim (String-cases i j) [
    | inl e ↦ rw e own
    | inr ne ↦ Keeps→Ensures (react_release-elsewhere Q i ne)
  ]

  -- A condition that the release of a record's session leaves in place, the record's turn does.
  module _ {Q : Condition}
      (released : (i : String) → Ensures (Left j Q) (react_release d i) (λ _. Left j Q)) where
    after_put_deadline :
        (r : SessionRecord) (b : SandboxBackend E)
        → Ensures (Left j Q) (put_deadline d r b) (λ _. Left j Q)
    unfolding put_deadline
    after_put_deadline (running r) b = Ensures-pure tt _ (λ w p. p)
    after_put_deadline (checkpointed c s deadline) b = Ensures-pure tt _ (λ w p. p)
    after_put_deadline (hibernated r none) b = Ensures-pure tt _ (λ w p. p)
    after_put_deadline (hibernated r (some deadline)) b =
        let kept = Keeps-outside (Left-inner j Q) (b.expire_at r.reference deadline) in
        Ensures-catch_kept (Left j Q) (λ w p. p) kept (Keeps→Ensures kept)
          (elim [ not_found x ↦ released _ | failure x ↦ Ensures-raise (failure x) _ ])

    after_parked :
        (r : SessionRecord) (b : SandboxBackend E)
        → Ensures (Left j Q) (boot_parked d r b) (λ _. Left j Q)
    unfolding boot_parked
    after_parked r b =
        Ensures-after (Keeps-gets _) (λ time. Ensures-if _ (released _) (after_put_deadline r b))

    pub after_turn :
        (r : SessionRecord) (o : Option (SandboxBackend E))
        → Ensures (Left j Q) (boot_record d r o) (λ _. Left j Q)
    unfolding boot_record
    after_turn r none = Keeps→Ensures (Keeps-warn (Left-inner j Q) _)
    after_turn (running r) (some b) = Ensures-pure tt _ (λ w p. p)
    after_turn (hibernated r deadline) (some b) = after_parked (hibernated r deadline) b
    after_turn (checkpointed c s deadline) (some b) = after_parked (checkpointed c s deadline) b

  pub release_Nothing :
      (i : String) → Ensures (Left j Nothing) (react_release d i) (λ _. Left j Nothing)
  release_Nothing i =
      release_any Nothing i (record { ensures = λ w p. rw (release_nothing w p.left.0) p })

  module _ (r : SessionRecord) (b : SandboxBackend E)
      (owned : find_backend d.registry r ≡ some b) where
    release_own : Ensures (Left j (AtMost r)) (react_release d j) (λ _. Left j Nothing)
    unfolding KeyedRecords
    release_own = record { ensures = λ w p. by_left w p.keyed p.left }
      where
        by_left :
            (w : World E)
            → KeyedRecords w.store.state.sessions
            → AtMost r (get w.store.state.sessions j) (get w.bundles j) (get w.archives j)
            → OnOk (λ _. Left j Nothing) (react_release d j w).0 (react_release d j w).1
        by_left w keyed (inl found) =
            OnOk-Left _ _ ((react_release-Keyed j).keeps w keyed)
              (release_loaded r b owned w (keyed j r found) found)
        by_left w keyed (inr nothing) =
            rw (release_nothing w nothing.0) (record { keyed = keyed; left = nothing })

    pub release_AtMost :
        (i : String) → Ensures (Left j (AtMost r)) (react_release d i) (λ _. Left j (AtMost r))
    release_AtMost i =
        release_any (AtMost r) i
          (Ensures-to (λ _ w p. record { keyed = p.keyed; left = inr p.left }) release_own)

    module _ (t : ℕ) (overdue : IsOverdue r t) (clock : (e : E) → t ≤ d.host.now e)
        (own : (base_of r).session_id ≡ j) where
      pub own_parked : Ensures (Left j (AtMost r)) (boot_parked d r b) (λ _. Left j Nothing)
      unfolding boot_parked
      own_parked =
          Ensures-bind (λ time w. (t ≤ time) × Left j (AtMost r) w)
            (Ensures-gets _ _ (λ w p. (clock w.env, p)))
            (λ time.
              Ensures-given_and (λ le. rw (overdue-lapsed r t time overdue le, own) release_own))
