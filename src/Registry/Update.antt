-- ===== src/Registry/Update.antt =====
-- A settings change keeps the backends of unchanged profiles and rebuilds the others.
use dsh_yawn.Base.{
  ℕ, ◌≡◌, refl, ◌↔◌, ◌⊎◌, inl, inr, ◌≢◌, ap, String, true, Option, none, some, [], ◌∷◌, arith,
  eq_iff, Option-cases, eq_refl, ne→==_false, String-cases, subst, ◌∙◌,
}
use dsh_yawn.Dict.{Dict, get, put, get-put_self, get-put_ne, get-empty}
use dsh_yawn.Exec.{Result, ok, err}
use dsh_yawn.Records.{SandboxProfile, docker, kas, buildkite}
use dsh_yawn.Registry.{
  SandboxBackend, Registry, same_number, same_text, same_profile, build, keep_or_build, add_backend,
  rebuild, update,
}

same_text_iff : (a b : Option String) → (same_text a b ≡ true) ↔ (a ≡ b)
same_text_iff none none = ground arith
same_text_iff (some a) (some b) = ground (arith, eq_iff a b)
same_text_iff none (some b) = ground arith
same_text_iff (some a) none = ground arith

same_number_iff : (a b : Option ℕ) → (same_number a b ≡ true) ↔ (a ≡ b)
same_number_iff none none = ground arith
same_number_iff (some a) (some b) = ground arith
same_number_iff none (some b) = ground arith
same_number_iff (some a) none = ground arith

-- The comparison by JSON text is equality of profiles.
same_profile_iff : (p q : SandboxProfile) → (same_profile p q ≡ true) ↔ (p ≡ q)
unfolding same_profile
same_profile_iff (docker p) (docker q) = ground (
  arith,
  eq_iff p.name q.name,
  eq_iff p.image q.image,
  same_text_iff p.binary q.binary,
  eq_iff p.control_plane_url q.control_plane_url,
  same_number_iff p.idle_ms q.idle_ms,
)
same_profile_iff (kas p) (kas q) = ground (
  arith,
  eq_iff p.name q.name,
  eq_iff p.namespace q.namespace,
  eq_iff p.warm_pool q.warm_pool,
  same_text_iff p.kubeconfig q.kubeconfig,
  same_number_iff p.idle_ms q.idle_ms,
)
same_profile_iff (buildkite p) (buildkite q) = ground (
  arith,
  eq_iff p.name q.name,
  eq_iff p.organization q.organization,
  eq_iff p.pipeline q.pipeline,
  eq_iff p.image q.image,
  eq_iff p.control_plane_url q.control_plane_url,
  same_number_iff p.idle_ms q.idle_ms,
  same_text_iff p.secret_key q.secret_key,
)
same_profile_iff (docker p) q = ground arith
same_profile_iff (kas p) q = ground arith
same_profile_iff (buildkite p) q = ground arith

-- The keys of a JavaScript object are distinct.
abbrev pub DistinctKeys {ℓ} : {V : Type ℓ} → Dict V → Type ℓ
DistinctKeys [] = Unit
DistinctKeys ((k, v) ∷ m) = (get m k ≡ none) × DistinctKeys m

module _ {E : Type 0} (create : SandboxProfile → Result (SandboxBackend E))
    (replacements : Dict (SandboxBackend E)) where
  -- The backend that a name must have after a pass over the profiles `ps`, from `before`.
  abbrev Rebuilt :
      Registry E
      → String
      → Option SandboxProfile
      → Option (SandboxBackend E)
      → Option (SandboxBackend E)
      → Type 0
  Rebuilt g name none before after = after ≡ before
  Rebuilt g name (some p) before after =
      (b : SandboxBackend E) × (after ≡ some b)
      × (keep_or_build create replacements g name p (get g.backends name) ≡ ok b)

  -- The pass over the first profile `k`, seen at `k` itself and at any other name.
  first_self :
      (g : Registry E) (m m' : Dict (SandboxBackend E)) (k : String) (p : SandboxProfile)
      (ps : Dict SandboxProfile) (b : SandboxBackend E)
      → get ps k ≡ none
      → keep_or_build create replacements g k p (get g.backends k) ≡ ok b
      → Rebuilt g k (get ps k) (get (put m k b) k) (get m' k)
      → Rebuilt g k (get ((k, p) ∷ ps) k) (get m k) (get m' k)
  unfolding get
  first_self g m m' k p ps b absent e ih =
      rw (eq_refl k) (let ih' = (rw absent at ih) in (b, ih' ∙ get-put_self m k b, e))

  first_other :
      (g : Registry E) (m m' : Dict (SandboxBackend E)) (k name : String) (p : SandboxProfile)
      (ps : Dict SandboxProfile) (b : SandboxBackend E)
      → ¬ (k ≡ name)
      → Rebuilt g name (get ps name) (get (put m k b) name) (get m' name)
      → Rebuilt g name (get ((k, p) ∷ ps) name) (get m name) (get m' name)
  unfolding get
  first_other g m m' k name p ps b ne ih =
      rw (ne→==_false k name ne) (rw (get-put_ne m k name b ne) at ih)

  first :
      (g : Registry E) (m m' : Dict (SandboxBackend E)) (k name : String) (p : SandboxProfile)
      (ps : Dict SandboxProfile) (b : SandboxBackend E)
      → get ps k ≡ none
      → keep_or_build create replacements g k p (get g.backends k) ≡ ok b
      → ((n : String) → Rebuilt g n (get ps n) (get (put m k b) n) (get m' n))
      → Rebuilt g name (get ((k, p) ∷ ps) name) (get m name) (get m' name)
  first g m m' k name p ps b absent e ih = elim (String-cases k name) [
    | inl same ↦
        subst (λ n. Rebuilt g n (get ((k, p) ∷ ps) n) (get m n) (get m' n)) same
          (first_self g m m' k p ps b absent e (ih k))
    | inr ne ↦ first_other g m m' k name p ps b ne (ih name)
  ]

  step :
      (g : Registry E) (m m' : Dict (SandboxBackend E)) (k name : String) (p : SandboxProfile)
      (ps : Dict SandboxProfile) (r : Result (SandboxBackend E))
      → get ps k ≡ none
      → keep_or_build create replacements g k p (get g.backends k) ≡ r
      → rebuild create replacements g (add_backend create replacements m k r) ps ≡ ok m'
      → ((m1 : Dict (SandboxBackend E)) (n : String)
          → rebuild create replacements g (ok m1) ps ≡ ok m'
          → Rebuilt g n (get ps n) (get m1 n) (get m' n))
      → Rebuilt g name (get ((k, p) ∷ ps) name) (get m name) (get m' name)
  unfolding rebuild
  step g m m' k name p ps (ok b) absent e h ih =
      first g m m' k name p ps b absent e (λ n. ih (put m k b) n h)
  step g m m' k name p [] (err x) absent e h ih = cc
  step g m m' k name p (q ∷ ps) (err x) absent e h ih = cc

  rebuild-Rebuilt :
      (g : Registry E) (m m' : Dict (SandboxBackend E)) (ps : Dict SandboxProfile) (name : String)
      → DistinctKeys ps
      → rebuild create replacements g (ok m) ps ≡ ok m'
      → Rebuilt g name (get ps name) (get m name) (get m' name)
  unfolding rebuild get
  rebuild-Rebuilt g m m' [] name d h = ground arith
  rebuild-Rebuilt g m m' ((k, p) ∷ ps) name d h =
      step g m m' k name p ps (keep_or_build create replacements g k p (get g.backends k)) d.0 refl
        h (λ m1 n h1. rebuild-Rebuilt g m1 m' ps n d.1 h1)

  keep_or_build-kept :
      (g : Registry E) (name : String) (p : SandboxProfile) (b b' : SandboxBackend E)
      → get g.profiles name ≡ some p
      → get g.backends name ≡ some b
      → keep_or_build create replacements g name p (get g.backends name) ≡ ok b'
      → b' ≡ b
  unfolding keep_or_build
  keep_or_build-kept g name p b b' before existing h = ground (arith, same_profile_iff p p)

  keep_or_build-built :
      (g : Registry E) (name : String) (p : SandboxProfile) (b : SandboxBackend E)
      → (get g.profiles name ≢ some p) ⊎ (get g.backends name ≡ none)
      → keep_or_build create replacements g name p (get g.backends name) ≡ ok b
      → build create replacements name p ≡ ok b
  unfolding keep_or_build
  keep_or_build-built g name p b (inr missing) h = ground arith
  keep_or_build-built g name p b (inl changed) h = elim (Option-cases (get g.profiles name)) [
    | inl e ↦ ground arith
    | inr (old, e) ↦ ground (arith, same_profile_iff old p)
  ]

  update-rebuild :
      (g g' : Registry E) (next : Dict SandboxProfile)
      → update create replacements g next ≡ ok g'
      → (rebuild create replacements g (ok []) next ≡ ok g'.backends) × (g'.profiles ≡ next)
  unfolding update
  update-rebuild g g' next h = ground arith

  -- After a settings change that went through, a name without a profile has no backend.
  pub update-drops :
      (g g' : Registry E) (next : Dict SandboxProfile) (name : String)
      → DistinctKeys next
      → update create replacements g next ≡ ok g'
      → get next name ≡ none
      → get g'.backends name ≡ none
  update-drops g g' next name d h absent =
      let r = rebuild-Rebuilt g [] g'.backends next name d (update-rebuild g g' next h).0 in
      (rw absent at r) ∙ get-empty name

  -- After a settings change that went through, a name whose profile is the same as before has the
  -- very backend that it had.
  pub update-keeps :
      (g g' : Registry E) (next : Dict SandboxProfile) (name : String) (p : SandboxProfile)
      (b : SandboxBackend E)
      → DistinctKeys next
      → update create replacements g next ≡ ok g'
      → get next name ≡ some p
      → get g.profiles name ≡ some p
      → get g.backends name ≡ some b
      → get g'.backends name ≡ some b
  update-keeps g g' next name p b d h now before existing =
      let r = rebuild-Rebuilt g [] g'.backends next name d (update-rebuild g g' next h).0 in
      let r' = (rw now at r) in
      r'.1 ∙ ap some (keep_or_build-kept g name p b r'.0 before existing r'.2)

  -- After a settings change that went through, a name whose profile is new or another one than before,
  -- or which had no backend, has a backend that was built for the new profile.
  pub update-builds :
      (g g' : Registry E) (next : Dict SandboxProfile) (name : String) (p : SandboxProfile)
      → DistinctKeys next
      → update create replacements g next ≡ ok g'
      → get next name ≡ some p
      → (get g.profiles name ≢ some p) ⊎ (get g.backends name ≡ none)
      → (b : SandboxBackend E) × (build create replacements name p ≡ ok b)
        × (get g'.backends name ≡ some b)
  update-builds g g' next name p d h now changed =
      let r = rebuild-Rebuilt g [] g'.backends next name d (update-rebuild g g' next h).0 in
      let r' = (rw now at r) in (r'.0, keep_or_build-built g name p r'.0 changed r'.2, r'.1)
