-- ===== src/Lifecycle/Recovery/Returned.antt =====
-- Boot recovery returns as long as the calls it makes are answered.
use dsh_yawn.Base.{ℕ, ◌≤◌, ◌≡◌, refl, String, Option, none, some, List, [], ◌∷◌, arith}
use dsh_yawn.Exec.{Result, ok, err, gets, continue, ◌>>=◌}
use dsh_yawn.Exec.Returns.{IsOk, Returns, Returns-pure, Returns-gets, Returns-bind, Returns-if}
use dsh_yawn.Records.{SessionRecord, running, hibernated, checkpointed}
use dsh_yawn.Store.{Loaded, all_records}
use dsh_yawn.Registry.{SandboxBackend, find_backend}
use dsh_yawn.World.{World}
use dsh_yawn.Lifecycle.{Deps}
use dsh_yawn.Lifecycle.Isolation.{KeyedRecords}
use dsh_yawn.Lifecycle.Forgotten.{Forgotten}
use dsh_yawn.Lifecycle.Recovery.Turns.{IsOverdue}
use dsh_yawn.Lifecycle.Recovery.Lapsed.{returned-Forgotten}
use dsh_yawn.Dict.{get}
use dsh_yawn.Lifecycle.Machine.{put_deadline, boot_parked, boot_record, boot_records, load, boot}
use dsh_yawn.Lifecycle.Recovery.Answered.{IsAnswering, IsServed, Whole, warned, gone_or, reacted}

IsOk-ok : (o : Result (Unit {0})) → IsOk o → o ≡ ok tt
IsOk-ok (ok a) is = refl
IsOk-ok (err e) is = elim is [ ]

module _ {E : Type 0} (d : Deps E) (served : IsServed d) where
  deadline_put :
      (r : SessionRecord) (b : SandboxBackend E)
      → IsAnswering b
      → Returns Whole (put_deadline d r b)
  unfolding put_deadline
  deadline_put (running r) b a = Returns-pure tt
  deadline_put (checkpointed c s deadline) b a = Returns-pure tt
  deadline_put (hibernated r none) b a = Returns-pure tt
  deadline_put (hibernated r (some deadline)) b a =
      gone_or d served _ (a.expiring r.reference deadline) (reacted d served _)

  parked :
      (r : SessionRecord) (b : SandboxBackend E) → IsAnswering b → Returns Whole (boot_parked d r b)
  unfolding boot_parked
  parked r b a =
      Returns-bind (Returns-gets _) (λ time. Returns-if _ (reacted d served _) (deadline_put r b a))

  turn :
      (r : SessionRecord) (o : Option (SandboxBackend E))
      → find_backend d.registry r ≡ o
      → Returns Whole (boot_record d r o)
  unfolding boot_record
  turn r none e = warned d served _
  turn (running r) (some b) e = Returns-pure tt
  turn (hibernated r deadline) (some b) e = parked (hibernated r deadline) b (served.backends _ b e)
  turn (checkpointed c s deadline) (some b) e =
      parked (checkpointed c s deadline) b (served.backends _ b e)

  turns : (rs : List SessionRecord) → Returns Whole (boot_records d rs)
  unfolding boot_records
  turns [] = Returns-pure tt
  turns (r ∷ rs) = Returns-bind (turn r _ refl) (λ _. turns rs)

  boot-ok :
      (loaded : Loaded) (w : World E)
      → (load loaded w).0 ≡ ok tt
      → (load loaded w).1.store.write_chain ≡ ok tt
      → (boot d loaded w).0 ≡ ok tt
  unfolding boot ◌>>=◌ gets
  boot-ok loaded w read whole = after (load loaded w) read whole
    where
      rest : World E → Result (Unit {0}) × World E
      rest w = boot_records d (all_records w.store) w

      after :
          (o : Result (Unit {0}) × World E)
          → o.0 ≡ ok tt
          → o.1.store.write_chain ≡ ok tt
          → (continue o.0 (λ _. rest) o.1).0 ≡ ok tt
      after (ok _, w') read whole = IsOk-ok _ ((turns (all_records w'.store)).returns w' whole).0
      after (err x, w') read whole = ground (arith, read)

  -- If the store can write, the state file was read with every record under the session it names,
  -- the clock never shows a time before `t`, and every call is answered (no write fails, no backend is
  -- out of reach, no `afterRelease` hook throws), a boot returns, and of a session whose record was
  -- parked until a time at or before `t`, or until no date at all, under a configured backend, it leaves
  -- neither a record nor checkpoint files.
  pub boot-Forgotten :
      (loaded : Loaded) (w : World E) (j : String) (t : ℕ) (r : SessionRecord)
      (b : SandboxBackend E)
      → (load loaded w).0 ≡ ok tt
      → (load loaded w).1.store.write_chain ≡ ok tt
      → KeyedRecords (load loaded w).1.store.state.sessions
      → ((e : E) → t ≤ d.host.now e)
      → get (load loaded w).1.store.state.sessions j ≡ some r
      → find_backend d.registry r ≡ some b
      → IsOverdue r t
      → ((boot d loaded w).0 ≡ ok tt) × Forgotten j (boot d loaded w).1
  boot-Forgotten loaded w j t r b read whole keyed clock found owned overdue =
      let returned = boot-ok loaded w read whole in
      (returned, returned-Forgotten d j loaded w t r b clock keyed found owned overdue returned)
