-- ===== src/Registry.antt =====
-- control-plane/src/sandbox/manager/profile-registry.ts: the configured profiles and the backends
-- built from them. A backend is the interface `SandboxBackend` of core/types.ts over an environment
-- `E` that its calls change; the constructors of the three backends are the parameter `create`.
pub mod Update
use dsh_yawn.Base.{
  ℕ, ◌≡◌, refl, String, Bool, true, false, not, ◌&&◌, Option, none, some, List, [], ◌∷◌, ◌==◌, eqb,
  is_some, or_else, if◌then◌else◌,
}
use Prim.Native.String.{◌++◌}
use dsh_yawn.Dict.{Dict, get, put, values}
use dsh_yawn.Exec.{Error, failure, Result, ok, err}
use dsh_yawn.Records.{
  Reference, SandboxProfile, docker, kas, buildkite, SessionRecord, RecordBase, base_of,
}

pub record SandboxHandle : Type 0 where
  pub sandbox_id : String
  pub reference : Reference

pub record SandboxBackend (E : Type 0) : Type 0 where
  pub name : String
  pub supports_hibernate : Bool
  pub wake_keeps_filesystem : Option Bool
  pub provision : String → String → E → Result SandboxHandle × E
  pub hibernate : Reference → E → Result (Unit {0}) × E
  pub wake : Reference → E → Result SandboxHandle × E
  pub destroy : Reference → E → Result (Unit {0}) × E
  pub expire_at : Reference → ℕ → E → Result (Unit {0}) × E
  pub health : Reference → E → Result Bool × E

abbrev same_number : Option ℕ → Option ℕ → Bool
same_number none none = true
same_number (some a) (some b) = eqb a b
same_number _ _ = false

abbrev same_text : Option String → Option String → Bool
same_text none none = true
same_text (some a) (some b) = a == b
same_text _ _ = false

-- `JSON.stringify(a) === JSON.stringify(b)` on profiles, which are built in a fixed field order.
unfoldable pub same_profile : SandboxProfile → SandboxProfile → Bool
same_profile (docker p) (docker q) =
    p.name == q.name
    && (p.image == q.image
        && (same_text p.binary q.binary
            && (p.control_plane_url == q.control_plane_url && same_number p.idle_ms q.idle_ms)))
same_profile (kas p) (kas q) =
    p.name == q.name
    && (p.namespace == q.namespace
        && (p.warm_pool == q.warm_pool
            && (eqb p.ready_timeout_ms q.ready_timeout_ms
                && (same_text p.kubeconfig q.kubeconfig && same_number p.idle_ms q.idle_ms))))
same_profile (buildkite p) (buildkite q) =
    p.name == q.name
    && (p.organization == q.organization
        && (p.pipeline == q.pipeline
            && (p.image == q.image
                && (p.control_plane_url == q.control_plane_url
                    && (eqb p.ready_timeout_ms q.ready_timeout_ms
                        && (same_number p.idle_ms q.idle_ms
                            && same_text p.secret_key q.secret_key))))))
same_profile _ _ = false

pub record Registry (E : Type 0) : Type 0 where
  pub profiles : Dict SandboxProfile
  pub backends : Dict (SandboxBackend E)

pub orphaned_record_message : SessionRecord → String
orphaned_record_message r =
    let b = base_of r in
    "session " ++ b.session_id ++ " has a " ++ b.backend ++ " sandbox from profile " ++ b.profile
    ++ ", which is no longer configured on that backend"

-- The backend that owns a record's sandbox: its profile is configured, and on the same backend.
unfoldable pub owner : {E : Type 0} → Option (SandboxBackend E) → String → Option (SandboxBackend E)
owner none name = none
owner (some b) name = if b.name == name then some b else none

module _ {E : Type 0} where
  unfoldable pub find_backend : Registry E → SessionRecord → Option (SandboxBackend E)
  unfolding owner
  find_backend g r = owner (get g.backends (base_of r).profile) (base_of r).backend

  unfoldable pub or_orphaned : SessionRecord → Option (SandboxBackend E) → Result (SandboxBackend E)
  unfolding orphaned_record_message
  or_orphaned r none = err (failure (orphaned_record_message r))
  or_orphaned r (some b) = ok b

  unfoldable pub backend_for : Registry E → SessionRecord → Result (SandboxBackend E)
  unfolding or_orphaned
  backend_for g r = or_orphaned r (find_backend g r)

-- `create` may throw for a profile whose backend cannot be built; `replacements` come from tests.
module _ {E : Type 0} (create : SandboxProfile → Result (SandboxBackend E))
    (replacements : Dict (SandboxBackend E)) where
  unfoldable pub or_create : Option (SandboxBackend E) → SandboxProfile → Result (SandboxBackend E)
  or_create none p = create p
  or_create (some b) p = ok b

  unfoldable pub build : String → SandboxProfile → Result (SandboxBackend E)
  unfolding or_create
  build name p = or_create (get replacements name) p

  -- Whether the profile of this name is configured now and equal to the next one.
  unfoldable pub unchanged : Option SandboxProfile → SandboxProfile → Bool
  unchanged none p = false
  unchanged (some old) p = same_profile old p

  unfoldable pub keep_or_build :
      Registry E → String → SandboxProfile → Option (SandboxBackend E) → Result (SandboxBackend E)
  unfolding build unchanged
  keep_or_build g name p none = build name p
  keep_or_build g name p (some existing) =
      if unchanged (get g.profiles name) p then ok existing else build name p

  unfoldable pub add_backend :
      Dict (SandboxBackend E)
      → String
      → Result (SandboxBackend E)
      → Result (Dict (SandboxBackend E))
  add_backend m name (ok b) = ok (put m name b)
  add_backend m name (err e) = err e

  -- The loop of `update` over the next profiles, with the map built so far.
  unfoldable pub rebuild :
      Registry E
      → Result (Dict (SandboxBackend E))
      → List (String × SandboxProfile)
      → Result (Dict (SandboxBackend E))
  unfolding keep_or_build add_backend
  rebuild g (err e) ps = err e
  rebuild g (ok m) [] = ok m
  rebuild g (ok m) ((name, p) ∷ ps) =
      rebuild g (add_backend m name (keep_or_build g name p (get g.backends name))) ps

  unfoldable pub swap_in :
      Dict SandboxProfile → Result (Dict (SandboxBackend E)) → Result (Registry E)
  swap_in next (ok m) = ok (record { profiles = next; backends = m })
  swap_in next (err e) = err e

  -- The registry with the next profiles, or the error of a backend that cannot be built: the
  -- caller then still has the registry it had.
  unfoldable pub update : Registry E → Dict SandboxProfile → Result (Registry E)
  unfolding rebuild swap_in
  update g next = swap_in next (rebuild g (ok []) next)
