-- ===== src/Lifecycle/Served.antt =====
-- What a session has when its `ensureRunning` answers.
pub mod Restored
pub mod Answer
use dsh_yawn.Base.{
  ◌≡◌, refl, sym, ap, subst, String, Bool, Option, none, some, List, [], ◌∷◌, arith,
}
use dsh_yawn.Dict.{Dict, get, put, delete, get-put_self}
use dsh_yawn.Exec.{Error, Result, Exec, pure, ◌>>=◌, catch, both}
use dsh_yawn.Exec.Hoare.{
  Keeps, Ensures, OnOk, Keeps-pure, Keeps-lift, Keeps-bind, Keeps-if, Keeps→Ensures, Ensures-bind,
  Ensures-bind_fact, Ensures-after, Ensures-if, Ensures-pure, Ensures-gets, Ensures-raise,
}
use dsh_yawn.Exec.Outcomes.{
  Anywhere, Ensures-then, Ensures-from, Ensures-to, Ensures-catch, Ensures-on_not_found,
  Ensures-always, Ensures-given, Ensures-given_and,
}
use dsh_yawn.Records.{
  RecordBase, RunningRecord, SessionRecord, running, hibernated, checkpointed, Checkpoint,
  SandboxProfile, base_of,
}
use dsh_yawn.Registry.{SandboxBackend}
use dsh_yawn.Store.{get_record}
use dsh_yawn.Store.Memory.{set_record-state}
use dsh_yawn.Checkpoint.{SavedCheckpoint}
use dsh_yawn.World.{Client, Host, World, outside, on_store, change_files, written}
use dsh_yawn.World.Rules.{IsInner, Keeps-outside, Keeps-outside_env, Keeps-both}
use dsh_yawn.Attachment.{attach}
use dsh_yawn.Attachment.Cached.{Held, Reused, attach-Held, reuse_cached-Reused}
use dsh_yawn.Lifecycle.{Hooks, Deps, store_set, call_hook, call_hooks, remove_files}
use dsh_yawn.Lifecycle.Starting.{
  described, claim_sandbox, provision, replace_lost_sandbox, woken_record, after_wake_hooks, wake,
  wake_or_replace, serve_uncached, serve_running, provision_fresh, give_up_restore, finish_restore,
  restore,
}

module _ {E : Type 0} (id : String) where
  -- The session's stored record is a running one.
  pub record Runs (w : World E) : Type 0 where
    pub who : RunningRecord
    pub is_stored : get w.store.state.sessions id ≡ some (running who)

  pub Runs-inner : IsInner Runs id
  Runs-inner = record {
    env_free = λ w e p. record { who = p.who; is_stored = p.is_stored };
    warnings_free = λ w m p. record { who = p.who; is_stored = p.is_stored };
    cached = λ w c p. record { who = p.who; is_stored = p.is_stored };
    evicted = λ w p. record { who = p.who; is_stored = p.is_stored };
  }

  -- The session's record is running, and `c` is its cached runner.
  abbrev pub Live : Client → World E → Type 0
  Live c w = Held Runs id c w

module _ {E : Type 0} (d : Deps E) {id : String} where
  pub get-put_at :
      (m : Dict SessionRecord) (j : String) (r : SessionRecord)
      → j ≡ id
      → get (put m j r) id ≡ some r
  get-put_at m j r e = rw e (get-put_self m id r)

  pub set_running-Runs :
      {P : World E → Type 0} (r : RunningRecord)
      → r.base.session_id ≡ id
      → Ensures P (store_set d (running r)) (λ _. Runs id)
  unfolding store_set on_store
  set_running-Runs r own = Ensures-always (Runs id) (λ w p. record {
    who = r;
    is_stored =
        rw (set_record-state d.host.write w.store (running r) w.env)
          (get-put_at w.store.state.sessions r.base.session_id (running r) own);
  })

  pub Live-free :
      (c : Client) (w : World E) (e : E) → Live id c w → Live id c (record w { env = e })
  Live-free c w e k = record {
    condition = (Runs-inner id).env_free w e k.condition;
    is_cached = k.is_cached;
  }

  pub Keeps-call_hooks :
      (c : Client) (pick : Hooks E → Option (E → Result (Unit {0}) × E)) (xs : List (Hooks E))
      → Keeps (Live id c) (call_hooks d pick xs)
  unfolding call_hooks
  Keeps-call_hooks c pick [] = Keeps-pure tt
  Keeps-call_hooks c pick (x ∷ xs) = Keeps-bind (called (pick x)) (λ _. Keeps-call_hooks c pick xs)
    where
      called : (o : Option (E → Result (Unit {0}) × E)) → Keeps (Live id c) (call_hook d o)
      called none = Keeps-pure tt
      called (some f) = Keeps-outside_env f (Live-free c)

  attach-Live :
      (r : RunningRecord)
      → r.base.session_id ≡ id
      → (url : String) → Ensures (Runs id) (attach d.host r url none) (λ c. Live id c)
  attach-Live r own url = attach-Held d.host (Runs-inner id) r own url none

  pub claim_sandbox-Own :
      (profile : SandboxProfile) (url : String)
      → Ensures Anywhere (claim_sandbox d id profile url) (λ r _. r.base.session_id ≡ id)
  unfolding claim_sandbox described
  claim_sandbox-Own profile url =
      Ensures-then _
        (λ b. Ensures-then _ (λ handle. Ensures-then _ (λ time. Ensures-pure _ _ (λ w p. refl))))

  provision-Runs :
      (profile : SandboxProfile) (url : String)
      → Ensures Anywhere (provision d id profile url) (λ r w. (r.base.session_id ≡ id) × Runs id w)
  unfolding provision
  provision-Runs profile url =
      Ensures-bind (λ r _. r.base.session_id ≡ id) (claim_sandbox-Own profile url) (λ r. owned r)
    where
      owned :
          (r : RunningRecord)
          → Ensures
              (λ _. r.base.session_id ≡ id)
              (store_set d (running r) >>= λ _. pure r)
              (λ r w. (r.base.session_id ≡ id) × Runs id w)
      owned r = Ensures-given (λ own.
          Ensures-bind (λ _. Runs id) (set_running-Runs r own)
            (λ _. Ensures-pure _ _ (λ w p. (own, p))))

  provision_attach-Live :
      (profile : SandboxProfile) (url : String)
      → Ensures Anywhere (provision d id profile url >>= λ r. attach d.host r url none) (Live id)
  provision_attach-Live profile url =
      Ensures-bind _ (provision-Runs profile url)
        (λ r. Ensures-given_and (λ own. attach-Live r own url))

  pub provision_fresh-Live :
      (repository : E → Result String × E)
      → Ensures Anywhere (provision_fresh d id repository) (Live id)
  unfolding provision_fresh
  provision_fresh-Live repository =
      Ensures-then _ (λ store.
        Ensures-then _ (λ profile. Ensures-then _ (λ url. provision_attach-Live profile _)))

  Keeps-after_wake_hooks :
      (b : SandboxBackend E) (woken : RunningRecord) (c : Client)
      → Keeps (Live id c) (after_wake_hooks d b woken c)
  unfolding after_wake_hooks
  Keeps-after_wake_hooks b woken c =
      Keeps-if b.supports_hibernate (Keeps-call_hooks c _ _) (Keeps-pure tt)

  module _ (r : RunningRecord) (own : r.base.session_id ≡ id) where
    wake-Live : (b : SandboxBackend E) (url : String) → Ensures Anywhere (wake d b r url) (Live id)
    unfolding wake woken_record
    wake-Live b url = Ensures-then _ (λ handle. Ensures-then _ (λ time.
        Ensures-bind (λ _. Runs id) (set_running-Runs (woken_record d r handle time) own)
          (λ _. Ensures-bind (Live id) (attach-Live (woken_record d r handle time) own url) (λ c.
            Ensures-after (Keeps-after_wake_hooks b _ c) (λ _. Ensures-pure _ _ (λ w p. p))))))

    replace_lost_sandbox-Live :
        (b : SandboxBackend E) (url : String)
        → Ensures Anywhere (replace_lost_sandbox d b r url) (Live id)
    unfolding replace_lost_sandbox
    replace_lost_sandbox-Live b url =
        Ensures-then _
          (λ _. Ensures-then _ (λ _. Ensures-then _ (λ profile. provision_at profile url _ own)))
      where
        provision_at :
            (profile : SandboxProfile) (url j : String)
            → j ≡ id
            → Ensures Anywhere
                (provision d j profile url >>= λ x. attach d.host x url none)
                (Live id)
        provision_at profile url j e = rw e (provision_attach-Live profile url)

    pub wake_or_replace-Live :
        (whole : SessionRecord) (url : String)
        → Ensures Anywhere (wake_or_replace d whole r url) (Live id)
    unfolding wake_or_replace
    wake_or_replace-Live whole url =
        Ensures-then _
          (λ b. Ensures-on_not_found (wake-Live b url) (replace_lost_sandbox-Live b url))

    serve_uncached-Live :
        (o : Option Client)
        → Ensures (Reused d.host (Runs-inner id) o) (serve_uncached d r o) (Live id)
    unfolding serve_uncached
    serve_uncached-Live (some c) = Ensures-pure c _ (λ w p. p)
    serve_uncached-Live none = Ensures-after (Keeps-lift _) (λ b.
        Ensures-after (Keeps-outside (Runs-inner id) _) (λ healthy.
          Ensures-if healthy (attach-Live r own _)
            (Ensures-from (λ w p. tt) (wake_or_replace-Live (running r) _))))

    pub serve_running-Live : Ensures (Runs id) (serve_running d r) (Live id)
    unfolding serve_running
    serve_running-Live =
        Ensures-bind _ (reuse_cached-Reused d.host (Runs-inner id) r own) serve_uncached-Live

    give_up_restore-Live : (e : Error) → Ensures Anywhere (give_up_restore d id r e) (Live id)
    unfolding give_up_restore
    give_up_restore-Live e =
        Ensures-then _ (λ b. Ensures-then _ (λ _. Ensures-then _ (λ _. Ensures-raise e _)))
