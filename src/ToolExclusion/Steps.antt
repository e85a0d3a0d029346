-- ===== src/ToolExclusion/Steps.antt =====
-- What each operation makes of one agent's policy.
use dsh_yawn.Base.{
  ◌≡◌, refl, String, true, false, Option, none, some, List, [], ◌∷◌, is_some, or_default,
  if◌then◌else◌, arith, ◌==◌, eq_iff, eq_refl, inl, inr, Option-cases,
}
use dsh_yawn.Dict.{get, put, get-put, get-delete}
use dsh_yawn.ToolExclusion.{
  Host, Watch, refused, at_once, later, AgentPolicy, ToolExclusion, hidden_servers, hidden_names,
  same_list, same_names, masked, settle_mask, update, scope_live, fresh_policy, watched, install,
  remove, sync, update_live,
}

pub same_list_refl : (xs : List String) → same_list xs xs ≡ true
unfolding same_list
same_list_refl [] = refl
same_list_refl (x ∷ xs) = ground (arith, eq_refl x, same_list_refl xs)

pub same_list_sound : (xs ys : List String) → same_list xs ys ≡ true → xs ≡ ys
unfolding same_list
same_list_sound [] [] h = refl
same_list_sound [] (y ∷ ys) h = ground arith
same_list_sound (x ∷ xs) [] h = ground arith
same_list_sound (x ∷ xs) (y ∷ ys) h = ground (arith, eq_iff x y, same_list_sound xs ys)

abbrev pub Policy : Type 0
Policy = Option AgentPolicy

abbrev pub with_policy : ToolExclusion → String → AgentPolicy → ToolExclusion
with_policy s a p = record s { policies = put s.policies a p }

-- One agent's policy after an update.
abbrev pub refresh : Host → String → AgentPolicy → AgentPolicy
refresh h a p =
    if same_names p.names (hidden_names h a)
    then p
    else or_default (masked h a (hidden_names h a) p) p

abbrev pub arrive : Host → String → AgentPolicy → AgentPolicy
arrive h a p = refresh h a (record p { live = true })

abbrev pub started : Host → String → Watch → Policy
started h a refused = none
started h a at_once = some (arrive h a fresh_policy)
started h a later = some fresh_policy

abbrev pub synced : Host → String → Policy → Policy
synced h a none = if is_some (hidden_servers h a) then started h a (h.inject a) else none
synced h a (some p) = if is_some (hidden_servers h a) then some p else none

abbrev pub updated : Host → String → Policy → Policy
updated h a none = none
updated h a (some p) = some (if p.live then refresh h a p else p)

module _ (h : Host) (a : String) (s : ToolExclusion) (k : String) where
  settle_mask-get :
      (o : Option AgentPolicy)
      → get (settle_mask a o s).policies k
        ≡ elim o [ none ↦ get s.policies k | some p ↦ if a == k then some p else get s.policies k ]
  unfolding settle_mask
  settle_mask-get none = refl
  settle_mask-get (some p) = get-put s.policies a k p

  update-get :
      (p : AgentPolicy)
      → get s.policies a ≡ some p
      → get (update h a p (hidden_names h a) s).policies k
        ≡ (if a == k then some (refresh h a p) else get s.policies k)
  unfolding update
  update-get p e = elim (Option-cases (masked h a (hidden_names h a) p)) [
    | inl failed ↦
        ground (arith, eq_iff a k, settle_mask-get (masked h a (hidden_names h a) p), failed)
    | inr (q, made) ↦
        ground (arith, eq_iff a k, settle_mask-get (masked h a (hidden_names h a) p), made)
  ]

module _ (h : Host) (a : String) (s : ToolExclusion) (k : String) where
  pub scope_live-get : get (scope_live h a s).policies k ≡ (
      if a == k
      then elim (get s.policies a) [ none ↦ none | some p ↦ some (arrive h a p) ]
      else get s.policies k)
  unfolding scope_live
  scope_live-get = elim (Option-cases (get s.policies a)) [
    | inl lost ↦ ground (arith, lost, eq_iff a k)
    | inr (p, found) ↦ ground (
      arith,
      found,
      eq_iff a k,
      eq_refl a,
      update-get h a (with_policy s a (record p { live = true })) k (record p { live = true }),
      get-put s.policies a k (record p { live = true }),
      get-put s.policies a a (record p { live = true }),
    )
  ]

  pub remove-get : get (remove h a s).policies k ≡ (if a == k then none else get s.policies k)
  unfolding remove
  remove-get = elim (Option-cases (get s.policies a)) [
    | inl lost ↦ ground (arith, lost, eq_iff a k)
    | inr (p, found) ↦ ground (arith, found, get-delete s.policies a k)
  ]

  pub update_live-get :
      get (update_live h a s).policies k
      ≡ (if a == k then updated h a (get s.policies a) else get s.policies k)
  unfolding update_live
  update_live-get = elim (Option-cases (get s.policies a)) [
    | inl lost ↦ ground (arith, lost, eq_iff a k)
    | inr (p, found) ↦ ground (arith, found, eq_iff a k, update-get h a s k p)
  ]

module _ (h : Host) (a : String) (s : ToolExclusion) (k : String) where
  watched-get :
      (w : Watch)
      → get s.policies a ≡ none
      → get (watched h a w (with_policy s a fresh_policy)).policies k
        ≡ (if a == k then started h a w else get s.policies k)
  unfolding watched
  watched-get refused e =
      ground
        (arith, get-delete (put s.policies a fresh_policy) a k, get-put s.policies a k fresh_policy)
  watched-get at_once e = ground (
    arith,
    scope_live-get h a (with_policy s a fresh_policy) k,
    get-put s.policies a a fresh_policy,
    get-put s.policies a k fresh_policy,
    eq_refl a,
  )
  watched-get later e = get-put s.policies a k fresh_policy

  pub sync-get :
      s.disposed ≡ false
      → get (sync h a s).policies k
        ≡ (if a == k then synced h a (get s.policies a) else get s.policies k)
  unfolding sync install
  sync-get e = elim (Option-cases (get s.policies a)) [
    | inl lost ↦ ground (arith, lost, eq_iff a k, watched-get (h.inject a) lost, remove-get h a s k)
    | inr (p, found) ↦ ground (arith, found, eq_iff a k, remove-get h a s k)
  ]

module _ (h : Host) (a : String) (s : ToolExclusion) where
  settle_mask-disposed : (o : Option AgentPolicy) → (settle_mask a o s).disposed ≡ s.disposed
  unfolding settle_mask
  settle_mask-disposed none = refl
  settle_mask-disposed (some p) = refl

  update-disposed :
      (p : AgentPolicy) (names : List String) → (update h a p names s).disposed ≡ s.disposed
  unfolding update
  update-disposed p names = ground (arith, settle_mask-disposed (masked h a names p))

module _ (h : Host) (a : String) (s : ToolExclusion) where
  pub scope_live-disposed : (scope_live h a s).disposed ≡ s.disposed
  unfolding scope_live
  scope_live-disposed = elim (Option-cases (get s.policies a)) [
    | inl lost ↦ ground (arith, lost)
    | inr (p, found) ↦ ground (
      arith,
      found,
      update-disposed h a (with_policy s a (record p { live = true })) (record p { live = true })
          (hidden_names h a),
    )
  ]

  pub remove-disposed : (remove h a s).disposed ≡ s.disposed
  unfolding remove
  remove-disposed = ground arith

  pub update_live-disposed : (update_live h a s).disposed ≡ s.disposed
  unfolding update_live
  update_live-disposed = elim (Option-cases (get s.policies a)) [
    | inl lost ↦ ground (arith, lost)
    | inr (p, found) ↦ ground (arith, found, update-disposed h a s p (hidden_names h a))
  ]

module _ (h : Host) (a : String) (s : ToolExclusion) where
  watched-disposed : (w : Watch) → (watched h a w s).disposed ≡ s.disposed
  unfolding watched
  watched-disposed refused = refl
  watched-disposed at_once = scope_live-disposed h a s
  watched-disposed later = refl

module _ (h : Host) (a : String) (s : ToolExclusion) where
  pub sync-disposed : (sync h a s).disposed ≡ s.disposed
  unfolding sync install
  sync-disposed = ground (
    arith,
    watched-disposed h a (with_policy s a fresh_policy) (h.inject a),
    remove-disposed h a s,
  )
