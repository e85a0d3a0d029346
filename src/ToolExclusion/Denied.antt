-- ===== src/ToolExclusion/Denied.antt =====
-- One agent's policy: the mask in force is the one of its recorded names, and what a pass leaves of it.
use dsh_yawn.Base.{
  ◌≡◌, refl, subst, String, Bool, true, false, Option, none, some, List, [], ◌∷◌, is_some, contains,
  or_default, if◌then◌else◌, arith, ◌⊎◌, inl, inr, Bool-cases, sym,
}
use dsh_yawn.ToolExclusion.{
  Host, Watch, refused, at_once, later, AgentPolicy, hidden_servers, hidden_names, same_names,
  masked, fresh_policy,
}
use dsh_yawn.ToolExclusion.Steps.{Policy, refresh, started, synced, updated, same_list_sound}
use dsh_yawn.ToolExclusion.Settled.{passed}

pub either :
    (P : Policy → Type 0) (b : Bool) (x y : Policy)
    → (b ≡ true → P x)
    → (b ≡ false → P y)
    → P (if b then x else y)
either P true x y then_case else_case = then_case refl
either P false x y then_case else_case = else_case refl

-- The names that a policy's mask denies its agent.
abbrev denied : Policy → List String
denied none = []
denied (some p) = or_default p.restriction []

-- The mask in force is the one of the recorded names.
abbrev pub Sound : Policy → Type 0
Sound none = Unit
Sound (some p) = or_default p.restriction [] ≡ or_default p.names []

-- What a pass that an agent is listed in leaves of its policy: nothing is hidden from the agent, or
-- the host refused to watch it; or there is a policy, and its tools are not there yet, its mask
-- denies what should be hidden, or the host refused that mask.
abbrev pub Settled : Host → String → Policy → Type 0
Settled h a none = (hidden_servers h a ≡ none) ⊎ (h.inject a ≡ refused)
Settled h a (some p) =
    (p.live ≡ false)
    ⊎ ((denied (some p) ≡ hidden_names h a) ⊎ (h.restrict a (hidden_names h a) ≡ false))

module _ (h : Host) (a : String) where
  masked-Sound :
      (ns : List String) (p : AgentPolicy)
      → Sound (some p)
      → Sound (some (or_default (masked h a ns p) p))
  unfolding masked
  masked-Sound [] p i = refl
  masked-Sound (x ∷ xs) p i = ground (arith, i)

  masked-Settled :
      (ns : List String) (p : AgentPolicy)
      → (denied (some (or_default (masked h a ns p) p)) ≡ ns) ⊎ (h.restrict a ns ≡ false)
  unfolding masked
  masked-Settled [] p = inl refl
  masked-Settled (x ∷ xs) p = elim (Bool-cases (h.restrict a (x ∷ xs))) [
    | inl granted ↦ inl (ground (arith, granted))
    | inr failed ↦ inr failed
  ]

  pub refresh-Sound : (p : AgentPolicy) → Sound (some p) → Sound (some (refresh h a p))
  refresh-Sound p i = elim (Bool-cases (same_names p.names (hidden_names h a))) [
    | inl same ↦ ground (arith, same, i)
    | inr other ↦ ground (arith, other, masked-Sound (hidden_names h a) p i)
  ]

  same_names-denied :
      (names : Option (List String)) (ns : List String)
      → same_names names ns ≡ true
      → or_default names [] ≡ ns
  unfolding same_names
  same_names-denied none ns e = ground arith
  same_names-denied (some xs) ns e = same_list_sound xs ns e

  refresh-Settled :
      (p : AgentPolicy)
      → Sound (some p)
      → (denied (some (refresh h a p)) ≡ hidden_names h a)
        ⊎ (h.restrict a (hidden_names h a) ≡ false)
  refresh-Settled p i = elim (Bool-cases (same_names p.names (hidden_names h a))) [
    | inl same ↦ inl (ground (arith, same, i, same_names-denied p.names (hidden_names h a) same))
    | inr other ↦ elim (masked-Settled (hidden_names h a) p) [
      | inl done ↦ inl (ground (arith, other, done))
      | inr failed ↦ inr failed
    ]
  ]

  some-if :
      (b : Bool) (x y : AgentPolicy) → some (if b then x else y) ≡ (if b then some x else some y)
  some-if b x y = ground arith

  updated-Sound : (o : Policy) → Sound o → Sound (updated h a o)
  updated-Sound none i = tt
  updated-Sound (some p) i =
      subst Sound (sym (some-if p.live (refresh h a p) p))
        (either Sound p.live (some (refresh h a p)) (some p) (λ _. refresh-Sound p i) (λ _. i))

  started-Sound : (w : Watch) → Sound (started h a w)
  unfolding fresh_policy
  started-Sound refused = tt
  started-Sound later = refl
  started-Sound at_once = refresh-Sound (record fresh_policy { live = true }) refl

  pub synced-Sound : (o : Policy) → Sound o → Sound (synced h a o)
  synced-Sound none i =
      either Sound (is_some (hidden_servers h a)) (started h a (h.inject a)) none
        (λ _. started-Sound (h.inject a)) (λ _. tt)
  synced-Sound (some p) i =
      either Sound (is_some (hidden_servers h a)) (some p) none (λ _. i) (λ _. tt)

  pub passed-Sound : (o : Policy) → Sound o → Sound (passed h a o)
  passed-Sound o i =
      updated-Sound (if contains h.agents a then synced h a o else o)
        (either Sound (contains h.agents a) (synced h a o) o (λ _. synced-Sound o i) (λ _. i))

  updated-Settled : (p : AgentPolicy) → Sound (some p) → Settled h a (updated h a (some p))
  updated-Settled p i = subst (Settled h a) (sym (some-if p.live (refresh h a p) p)) (
      either (Settled h a) p.live (some (refresh h a p)) (some p) (λ _. inr (refresh-Settled p i))
        (λ waiting. inl waiting))

  none-Settled : is_some (hidden_servers h a) ≡ false → Settled h a none
  none-Settled e = inl (ground (arith, e))

  started-Settled : (w : Watch) → h.inject a ≡ w → Settled h a (updated h a (started h a w))
  unfolding fresh_policy
  started-Settled refused e = inr e
  started-Settled later e = inl refl
  started-Settled at_once e =
      updated-Settled (refresh h a (record fresh_policy { live = true })) (started-Sound at_once)

  synced-Settled : (o : Policy) → Sound o → Settled h a (updated h a (synced h a o))
  synced-Settled none i =
      either (λ o. Settled h a (updated h a o)) (is_some (hidden_servers h a))
        (started h a (h.inject a)) none (λ _. started-Settled (h.inject a) refl) none-Settled
  synced-Settled (some p) i =
      either (λ o. Settled h a (updated h a o)) (is_some (hidden_servers h a)) (some p) none
        (λ _. updated-Settled p i) none-Settled

  pub passed-Settled :
      (o : Policy) → contains h.agents a ≡ true → Sound o → Settled h a (passed h a o)
  passed-Settled o e i =
      subst (λ b. Settled h a (updated h a (if b then synced h a o else o))) (sym e)
        (synced-Settled o i)
