-- ===== src/Lifecycle/Served/Restored.antt =====
-- A restore ends with a live runner.
use dsh_yawn.Base.{◌≡◌, String, Option, none, some}
use dsh_yawn.Exec.{Error, ◌>>=◌, catch}
use dsh_yawn.Exec.Hoare.{Keeps, Ensures, Ensures-bind, Ensures-after, Ensures-pure, Ensures-raise}
use dsh_yawn.Exec.Outcomes.{Anywhere, Ensures-then, Ensures-catch, Ensures-always, Ensures-given}
use dsh_yawn.Records.{RecordBase, RunningRecord, running, Checkpoint, SandboxProfile}
use dsh_yawn.Store.Memory.{set_record-state}
use dsh_yawn.Checkpoint.{SavedCheckpoint}
use dsh_yawn.World.{Client, World, on_store, change_files, written}
use dsh_yawn.World.Rules.{IsInner, Keeps-both}
use dsh_yawn.Attachment.{attach}
use dsh_yawn.Attachment.Cached.{Held, attach-Held}
use dsh_yawn.Lifecycle.{Deps, store_set, remove_files}
use dsh_yawn.Lifecycle.Starting.{claim_sandbox, give_up_restore, finish_restore, restore}
use dsh_yawn.Lifecycle.Served.{Live, get-put_at, Live-free, Keeps-call_hooks, claim_sandbox-Own}

module _ {E : Type 0} (d : Deps E) {id : String} where
  Anywhere-inner : IsInner {E = E} Anywhere id
  Anywhere-inner = record {
    env_free = λ w e p. tt;
    warnings_free = λ w m p. tt;
    cached = λ w c p. tt;
    evicted = λ w p. tt;
  }

  set_running-Live :
      (c : Client) (r : RunningRecord)
      → r.base.session_id ≡ id
      → Ensures (Held Anywhere id c) (store_set d (running r)) (λ _. Live id c)
  unfolding store_set on_store
  set_running-Live c r own = Ensures-always (Live id c) (λ w p. record {
    condition = record {
      who = r;
      is_stored =
          rw (set_record-state d.host.write w.store (running r) w.env)
            (get-put_at d w.store.state.sessions r.base.session_id (running r) own);
    };
    is_cached = p.is_cached;
  })

  written-Live :
      (c : Client) (w w' : World E) (r : Option Error × E)
      → Live id c w
      → Live id c w'
      → Live id c (written w r w').1
  unfolding written
  written-Live c w w' (none, e) p p' = Live-free d c w' e p'
  written-Live c w w' (some x, e) p p' = Live-free d c w e p

  Keeps-change_files :
      (c : Client) (f : World E → World E)
      → ((w : World E) → Live id c w → Live id c (f w))
      → Keeps (Live id c) (change_files d.host f)
  unfolding change_files
  Keeps-change_files c f k = record {
    keeps = λ w p. written-Live c w (f w) (d.host.write_file w.env) p (k w p);
  }

  same_files :
      (c : Client) (w : World E) (bundles archives : _)
      → Live id c w
      → Live id c (record w { bundles = bundles; archives = archives })
  same_files c w bundles archives p = record {
    condition = record { who = p.condition.who; is_stored = p.condition.is_stored };
    is_cached = p.is_cached;
  }

  Keeps-remove_files : (c : Client) (j : String) → Keeps (Live id c) (remove_files d j)
  unfolding remove_files
  Keeps-remove_files c j =
      Keeps-both (Keeps-change_files c _ (λ w p. same_files c w _ _ p))
        (Keeps-change_files c _ (λ w p. same_files c w _ _ p))

  finish_restore-Live :
      (r : RunningRecord)
      → r.base.session_id ≡ id
      → (j : String) (saved : Checkpoint) (c : Client)
      → Ensures (Held Anywhere id c) (finish_restore d j r saved c) (Live id)
  unfolding finish_restore
  finish_restore-Live r own j saved c =
      Ensures-bind (λ _. Live id c) (set_running-Live c r own)
        (λ _.
          Ensures-after (Keeps-remove_files c j)
            (λ _. Ensures-after (Keeps-call_hooks d c _ _) (λ _. Ensures-pure c _ (λ w p. p))))

  never :
      (j : String) (r : RunningRecord) (e : Error)
      → Ensures Anywhere (give_up_restore d j r e) (Held Anywhere id)
  unfolding give_up_restore
  never j r e = Ensures-then _ (λ b. Ensures-then _ (λ _. Ensures-then _ (λ _. Ensures-raise e _)))

  restore_claimed-Live :
      (b : RecordBase) (saved : Checkpoint) (files : SavedCheckpoint) (r : RunningRecord)
      → r.base.session_id ≡ id
      → Ensures Anywhere
          (catch (attach d.host r b.repository_url (some files)) (give_up_restore d b.session_id r)
            >>= λ c. finish_restore d b.session_id r saved c)
          (Live id)
  restore_claimed-Live b saved files r own =
      Ensures-bind (Held Anywhere id)
        (Ensures-catch (attach-Held d.host Anywhere-inner r own _ (some files))
          (never b.session_id r))
        (λ c. finish_restore-Live r own b.session_id saved c)

  pub restore-Live :
      (b : RecordBase) (saved : Checkpoint)
      → b.session_id ≡ id
      → Ensures Anywhere (restore d b saved) (Live id)
  unfolding restore
  restore-Live b saved own = Ensures-then _ (λ found. Ensures-then _ (λ bundle.
      Ensures-then _ (λ archive. Ensures-then _ (λ profile.
        Ensures-bind (λ r _. r.base.session_id ≡ id) (claimed profile _ _ own)
          (λ r. Ensures-given (restore_claimed-Live b saved _ r))))))
    where
      claimed :
          (p : SandboxProfile) (u j : String)
          → j ≡ id
          → Ensures Anywhere (claim_sandbox d j p u) (λ r _. r.base.session_id ≡ id)
      claimed p u j e = rw e (claim_sandbox-Own d p u)
