-- ===== src/RootSession/Walk.antt =====
-- The walk to the root ends, also on a lineage that runs in a circle.
use dsh_yawn.Base.{
  ℕ, ◌+◌, ◌≤◌, ◌<◌, ◌≡◌, ap, subst, String, true, false, not, ◌||◌, Option, none, some, List, [],
  ◌∷◌, contains, keep, length, is_some, arith, ◌∙◌, Option-cases, Bool-cases, inl, inr, eq_iff,
}
use dsh_yawn.RootSession.{Agent, is_subagent, found_as, next_parent, root_loop, root_session_id}

-- The known names that the walk has not seen yet.
abbrev unseen : List String → List String → ℕ
unseen known seen = length (keep (λ k. not (contains seen k)) known)

unseen-le :
    (known seen : List String) (name : String) → unseen known (name ∷ seen) ≤ unseen known seen
unseen-le [] seen name = omega arith
unseen-le (k ∷ known) seen name = ground (arith, unseen-le known seen name)

unseen-bound : (known seen : List String) → unseen known seen ≤ length known
unseen-bound [] seen = omega arith
unseen-bound (k ∷ known) seen = ground (arith, unseen-bound known seen)

-- Seeing a known name leaves one name less.
unseen-lt :
    (known seen : List String) (name : String)
    → contains known name ≡ true
    → contains seen name ≡ false
    → unseen known (name ∷ seen) < unseen known seen
unseen-lt [] seen name k s = ground (arith, k)
unseen-lt (x ∷ known) seen name k s = ground (
  arith,
  k,
  s,
  unseen-le known seen name,
  unseen-lt known seen name,
  eq_iff x name,
  eq_iff name x,
)

module _ (agent_lookup : String → Option Agent) where
  -- The chain of marked subagents that leads from one agent to another.
  pub data Ancestor : Agent → Agent → Type 0 where
    itself : {a : Agent} → Ancestor a a
    above :
        {a b c : Agent} (name : String)
        → is_subagent a.origin ≡ true
        → a.parent_session ≡ some name
        → agent_lookup name ≡ some b
        → Ancestor b c
        → Ancestor a c

  found_as-eq-some :
      (name j : String) (o : Option Agent) (b : Agent)
      → found_as agent_lookup name o ≡ some (j, b)
      → (name ≡ j) × (o ≡ some b)
  found_as-eq-some name j none b h = ground (arith, h)
  found_as-eq-some name j (some c) b h = (ground (arith, h), ground (arith, h))

  next_parent-eq-some :
      (a : Agent) (seen : List String) (name : String) (b : Agent)
      → next_parent agent_lookup a seen ≡ some (name, b)
      → (is_subagent a.origin ≡ true)
        × (a.parent_session ≡ some name)
        × (agent_lookup name ≡ some b)
        × (contains seen name ≡ false)
  unfolding next_parent
  next_parent-eq-some a seen name b h = elim (Option-cases a.parent_session) [
    | inl alone ↦ ground (arith, h, alone)
    | inr (j, parent) ↦ elim (Bool-cases (not (is_subagent a.origin) || contains seen j)) [
      | inl stops ↦ ground (arith, h, parent, stops)
      | inr goes ↦
          let named : found_as agent_lookup j (agent_lookup j) ≡ some (name, b) =
            ground (arith, h, parent, goes) in
          let (same_name, looked) = found_as-eq-some j name (agent_lookup j) b named in
          (
            ground (arith, goes),
            parent ∙ ap some same_name,
            subst (λ n. agent_lookup n ≡ some b) same_name looked,
            subst (λ n. contains seen n ≡ false) same_name (ground (arith, goes)),
          )
    ]
  ]

  root_loop-enough :
      (known : List String)
      → ((name : String) → is_some (agent_lookup name) ≡ true → contains known name ≡ true)
      → (fuel : ℕ) (a : Agent) (seen : List String) → unseen known seen < fuel
      → (root : Agent) × (root_loop agent_lookup fuel a seen ≡ some root.id) × Ancestor a root
  unfolding root_loop
  root_loop-enough known registered ℕ.zero a seen e = absurd (omega (arith, e))
  root_loop-enough known registered (ℕ.suc fuel) a seen e =
      elim (Option-cases (next_parent agent_lookup a seen)) [
        | inl last ↦ (a, ground (arith, last), itself)
        | inr ((name, b), found) ↦
            let (marked, parent, looked, fresh) = next_parent-eq-some a seen name b found in
            let less = unseen-lt known seen name (registered name (ground (arith, looked))) fresh in
            let (root, same_id, chain) =
              root_loop-enough known registered fuel b (name ∷ seen) (omega (arith, e, less)) in
            (root, ground (arith, found, same_id), above name marked parent looked chain)
      ]

  -- Whatever lineages the sessions record, circles included, the loop ends within one round more
  -- than there are registered agents, with the id of the agent itself or of one that a chain of
  -- marked subagents leads to.
  pub root_session_id-enough :
      (known : List String) (agent : Agent)
      → ((name : String) → is_some (agent_lookup name) ≡ true → contains known name ≡ true)
      → (root : Agent) × (root_session_id agent_lookup (length known + 1) agent ≡ some root.id)
        × Ancestor agent root
  unfolding root_session_id
  root_session_id-enough known agent registered =
      root_loop-enough known registered (length known + 1) agent (agent.id ∷ [])
        (omega (arith, unseen-bound known (agent.id ∷ [])))
