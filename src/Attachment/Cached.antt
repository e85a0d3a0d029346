-- ===== src/Attachment/Cached.antt =====
-- The client that the attachment answers with is the one it keeps for the session.
use dsh_yawn.Base.{◌≡◌, sym, ap, String, Option, none, some}
use dsh_yawn.Dict.{get, get-put_self}
use dsh_yawn.Exec.{◌>>=◌, pure}
use dsh_yawn.Exec.Hoare.{
  Keeps, Ensures, keeps_rules, Ensures-bind, Ensures-after, Ensures-pure, Ensures-gets,
}
use dsh_yawn.Exec.Outcomes.{Ensures-catch_kept, Ensures-from}
use dsh_yawn.Records.{RunningRecord}
use dsh_yawn.Checkpoint.{SavedCheckpoint}
use dsh_yawn.World.{Client, Host, World, outside, cache_client, evict}
use dsh_yawn.World.Rules.{
  IsInner, Keeps-outside, Keeps-outside_silent, Keeps-outside_env, Keeps-evict,
}
use dsh_yawn.Attachment.{
  client_for, push_credentials, check_identity, refresh_cached, try_cached, reuse_cached, attach,
}
use dsh_yawn.Attachment.Keeping.{Keeps-wait_for_runner, Keeps-put_back}

-- `c` is the session's cached client, and the condition holds.
pub record Held {E : Type 0} (P : World E → Type 0) (id : String) (c : Client) (w : World E)
    : Type 0 where
  pub condition : P w
  pub is_cached : get w.clients id ≡ some c

module _ {E : Type 0} (h : Host E) {P : World E → Type 0} {id : String} (inner : IsInner P id) where
  ruleset calls = (keeps_rules, Keeps-outside, Keeps-outside_silent)

  cache_client-Held : (c : Client) → Ensures P (cache_client id c) (λ _. Held P id c)
  unfolding cache_client
  cache_client-Held c = record {
    ensures =
        λ w p. record { condition = inner.cached w c p; is_cached = get-put_self w.clients id c };
  }

  cache_and_answer :
      (j : String)
      → j ≡ id
      → (c : Client) → Ensures P (cache_client j c >>= λ _. pure c) (λ a. Held P id a)
  cache_and_answer j e c =
      rw e
        (Ensures-bind (λ _. Held P id c) (cache_client-Held c) (λ _. Ensures-pure c _ (λ w k. k)))

  pub attach-Held :
      (r : RunningRecord)
      → r.base.session_id ≡ id
      → (url : String) (saved : Option SavedCheckpoint)
      → Ensures P (attach h r url saved) (λ c. Held P id c)
  unfolding attach
  attach-Held r own url saved = Ensures-after (Keeps-wait_for_runner h inner r.sandbox_id) (λ c.
      Ensures-after (search (calls)) (λ _.
        Ensures-after (Keeps-outside inner _) (λ _.
          Ensures-after (Keeps-put_back h inner c url saved) (λ _. cache_and_answer _ own c))))

  -- What `reuseCached` leaves: the client that it answers with is the one in the cache.
  abbrev pub Reused : Option Client → World E → Type 0
  Reused none w = P w
  Reused (some c) w = Held P id c w

  Held-free :
      (c : Client) (w : World E) (e : _) → Held P id c w → Held P id c (record w { env = e })
  Held-free c w e k = record { condition = inner.env_free w e k.condition; is_cached = k.is_cached }

  Keeps-Held : {A : Type 0} (c : Client) (f : E → _ × E) → Keeps (Held P id c) (outside {A = A} f)
  Keeps-Held c f = Keeps-outside_env f (Held-free c)

  refresh_cached-Held :
      (c : Client) (r : RunningRecord) → Ensures (Held P id c) (refresh_cached h c r) Reused
  unfolding refresh_cached check_identity push_credentials
  refresh_cached-Held c r =
      Ensures-after (search (keeps_rules, Keeps-Held))
        (λ _. Ensures-after (search (keeps_rules, Keeps-Held)) (λ _. Ensures-pure _ _ (λ w k. k)))

  evict_own : (j : String) → j ≡ id → Keeps P (evict {E = E} j)
  evict_own j e = rw e (Keeps-evict inner)

  try_cached-Reused :
      (r : RunningRecord) (o : Option Client)
      → r.base.session_id ≡ id
      → Ensures (λ w. P w × get w.clients id ≡ o) (try_cached h r o) Reused
  unfolding try_cached refresh_cached
  try_cached-Reused r none own = Ensures-pure _ _ (λ w p. p.0)
  try_cached-Reused r (some c) own =
      Ensures-catch_kept P (λ w p. p.0) (search (calls))
        (Ensures-from (λ w p. record { condition = p.0; is_cached = p.1 })
          (refresh_cached-Held c r))
        (λ e. Ensures-after (evict_own _ own) (λ _. Ensures-pure _ _ (λ w p. p)))

  pub reuse_cached-Reused :
      (r : RunningRecord) → r.base.session_id ≡ id → Ensures P (reuse_cached h r) Reused
  unfolding reuse_cached client_for
  reuse_cached-Reused r own =
      Ensures-bind (λ o w. P w × get w.clients id ≡ o)
        (Ensures-gets _ _ (λ w p. (p, ap (get w.clients) (sym own))))
        (λ o. try_cached-Reused r o own)
