-- ===== src/ToolExclusion/Settled.antt =====
-- A pass of a reconcile, agent by agent.
use dsh_yawn.Base.{
  ◌≡◌, refl, String, false, none, some, List, [], ◌∷◌, is_some, contains, or_default, if◌then◌else◌,
  arith, ◌==◌, eq_iff, inl, inr, Bool-cases, Option-cases, ◌∙◌,
}
use dsh_yawn.Dict.{Dict, get, keys}
use dsh_yawn.ToolExclusion.{
  Host, Watch, AgentPolicy, ToolExclusion, hidden_servers, hidden_names, same_names, masked,
  update_live, sync, for_each, update_all, pass,
}
use dsh_yawn.ToolExclusion.Steps.{
  Policy, refresh, started, synced, updated, same_list_refl, sync-get, sync-disposed,
  update_live-get, update_live-disposed,
}

-- A step that changes the policy of its own agent only, in a way that a repetition leaves alone.
module _ (f : String → ToolExclusion → ToolExclusion) (g : String → Policy → Policy)
    (one : (a : String) (s : ToolExclusion) (k : String)
      → s.disposed ≡ false
      → get (f a s).policies k ≡ (if a == k then g a (get s.policies a) else get s.policies k))
    (open_still : (a : String) (s : ToolExclusion) → (f a s).disposed ≡ s.disposed)
    (again : (a : String) (o : Policy) → g a (g a o) ≡ g a o) where
  for_each-get :
      (ids : List String) (s : ToolExclusion) (k : String)
      → s.disposed ≡ false
      → get (for_each f ids s).policies k
        ≡ (if contains ids k then g k (get s.policies k) else get s.policies k)
  unfolding for_each
  for_each-get [] s k e = refl
  for_each-get (a ∷ ids) s k e = ground (
    arith,
    for_each-get ids (f a s) k (open_still a s ∙ e),
    one a s k e,
    eq_iff a k,
    again k (get s.policies k),
  )

  for_each-disposed :
      (ids : List String) (s : ToolExclusion) → (for_each f ids s).disposed ≡ s.disposed
  unfolding for_each
  for_each-disposed [] s = refl
  for_each-disposed (a ∷ ids) s = for_each-disposed ids (f a s) ∙ open_still a s

masked_idem :
    (h : Host) (a : String) (ns : List String) (p : AgentPolicy)
    → same_names p.names ns ≡ false
    → (let q = or_default (masked h a ns p) p in
        (if same_names q.names ns then q else or_default (masked h a ns q) q) ≡ q)
unfolding masked same_names
masked_idem h a [] p e = ground (arith, same_list_refl [])
masked_idem h a (x ∷ xs) p e = ground (arith, same_list_refl (x ∷ xs))

refresh_idem :
    (h : Host) (a : String) (p : AgentPolicy) → refresh h a (refresh h a p) ≡ refresh h a p
refresh_idem h a p = elim (Bool-cases (same_names p.names (hidden_names h a))) [
  | inl same ↦ ground (arith, same)
  | inr other ↦ ground (arith, other, masked_idem h a (hidden_names h a) p)
]

masked-live :
    (h : Host) (a : String) (ns : List String) (p : AgentPolicy)
    → (or_default (masked h a ns p) p).live ≡ p.live
unfolding masked
masked-live h a [] p = refl
masked-live h a (x ∷ xs) p = ground arith

refresh-live : (h : Host) (a : String) (p : AgentPolicy) → (refresh h a p).live ≡ p.live
refresh-live h a p = ground (arith, masked-live h a (hidden_names h a) p)

updated_idem : (h : Host) (a : String) (o : Policy) → updated h a (updated h a o) ≡ updated h a o
updated_idem h a none = refl
updated_idem h a (some p) = elim (Bool-cases p.live) [
  | inl live ↦ ground (arith, live, refresh-live h a p, refresh_idem h a p)
  | inr waiting ↦ ground (arith, waiting)
]

started_idem :
    (h : Host) (a : String) (w : Watch)
    → h.inject a ≡ w
    → synced h a (if is_some (hidden_servers h a) then started h a w else none)
      ≡ (if is_some (hidden_servers h a) then started h a w else none)
started_idem h a w e = ground (arith, e)

synced_idem : (h : Host) (a : String) (o : Policy) → synced h a (synced h a o) ≡ synced h a o
synced_idem h a none = started_idem h a (h.inject a) refl
synced_idem h a (some p) = ground arith

pub contains-keys :
    (m : Dict AgentPolicy) (k : String) → get m k ≡ (if contains (keys m) k then get m k else none)
unfolding get
contains-keys [] k = refl
contains-keys ((j, v) ∷ m) k = ground (arith, contains-keys m k)

-- One agent's policy after a pass.
abbrev pub passed : Host → String → Policy → Policy
passed h k o = updated h k (if contains h.agents k then synced h k o else o)

module _ (h : Host) (s : ToolExclusion) where
  synced_all-disposed : (for_each (sync h) h.agents s).disposed ≡ s.disposed
  synced_all-disposed =
      for_each-disposed (sync h) (synced h) (sync-get h) (sync-disposed h) (synced_idem h) h.agents
        s

  synced_all-get :
      (k : String)
      → s.disposed ≡ false
      → get (for_each (sync h) h.agents s).policies k
        ≡ (if contains h.agents k then synced h k (get s.policies k) else get s.policies k)
  synced_all-get =
      for_each-get (sync h) (synced h) (sync-get h) (sync-disposed h) (synced_idem h) h.agents s

  updated_one-get :
      (a : String) (r : ToolExclusion) (k : String)
      → r.disposed ≡ false
      → get (update_live h a r).policies k
        ≡ (if a == k then updated h a (get r.policies a) else get r.policies k)
  updated_one-get a r k e = update_live-get h a r k

  update_all-get :
      (k : String)
      → s.disposed ≡ false
      → get (update_all h s).policies k ≡ updated h k (get s.policies k)
  unfolding update_all
  update_all-get k e = ground (
    arith,
    contains-keys s.policies k,
    for_each-get (update_live h) (updated h) updated_one-get (update_live-disposed h)
        (updated_idem h) (keys s.policies) s k e,
  )

  update_all-disposed : (update_all h s).disposed ≡ s.disposed
  unfolding update_all
  update_all-disposed =
      for_each-disposed (update_live h) (updated h) updated_one-get (update_live-disposed h)
        (updated_idem h) (keys s.policies) s

module _ (h : Host) (s : ToolExclusion) where
  pub pass-disposed : (pass h s).disposed ≡ s.disposed
  unfolding pass
  pass-disposed = update_all-disposed h (for_each (sync h) h.agents s) ∙ synced_all-disposed h s

  pub pass-get :
      (k : String) → s.disposed ≡ false → get (pass h s).policies k ≡ passed h k (get s.policies k)
  unfolding pass
  pass-get k e = ground (
    arith,
    synced_all-get h s k e,
    update_all-get h (for_each (sync h) h.agents s) k (synced_all-disposed h s ∙ e),
  )

synced-updated :
    (h : Host) (k : String) (o : Policy)
    → synced h k (updated h k (synced h k o)) ≡ updated h k (synced h k o)
synced-updated h k none = elim (Option-cases (synced h k none)) [
  | inl lost ↦ ground (arith, lost)
  | inr (q, found) ↦ ground (arith, found)
]
synced-updated h k (some p) = ground arith

passed_idem : (h : Host) (k : String) (o : Policy) → passed h k (passed h k o) ≡ passed h k o
passed_idem h k o = elim (Bool-cases (contains h.agents k)) [
  | inl listed ↦ ground (arith, listed, synced-updated h k o, updated_idem h k (synced h k o))
  | inr other ↦ ground (arith, other, updated_idem h k o)
]

-- A pass over a host that has not changed since the pass before leaves the policy of every agent as
-- it is, so the masks that the loop sets do not make it run on: what a pass asks of the host, it
-- asks once, but for the requests that the host refused.
pub pass_idem :
    (h : Host) (s : ToolExclusion) (k : String)
    → s.disposed ≡ false
    → get (pass h (pass h s)).policies k ≡ get (pass h s).policies k
pass_idem h s k e = ground (
  arith,
  pass-get h (pass h s) k (pass-disposed h s ∙ e),
  pass-get h s k e,
  passed_idem h k (get s.policies k),
)
