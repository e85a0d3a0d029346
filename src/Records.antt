-- ===== src/Records.antt =====
-- control-plane/src/core/types.ts: profiles, backend references and session records. Timestamps are
-- milliseconds; a deadline is `none` if its text is no date. Bytes are numbers below 256.
use dsh_yawn.Base.{ℕ, String, Bool, not, Option, none, some, List, ◌==◌}

abbrev pub Bytes : Type 0
Bytes = List ℕ

-- `Record<string, unknown>`: what a backend needs to find its sandbox again.
abbrev pub Reference : Type 0
Reference = List (String × String)

pub record DockerProfile : Type 0 where
  pub name : String
  pub image : String
  pub binary : Option String
  pub control_plane_url : String
  pub idle_ms : Option ℕ

pub record KasProfile : Type 0 where
  pub name : String
  pub namespace : String
  pub warm_pool : String
  pub ready_timeout_ms : ℕ
  pub kubeconfig : Option String
  pub idle_ms : Option ℕ

pub record BuildkiteProfile : Type 0 where
  pub name : String
  pub organization : String
  pub pipeline : String
  pub image : String
  pub control_plane_url : String
  pub ready_timeout_ms : ℕ
  pub idle_ms : Option ℕ
  pub secret_key : Option String

pub data SandboxProfile : Type 0 where
  docker : DockerProfile → SandboxProfile
  kas : KasProfile → SandboxProfile
  buildkite : BuildkiteProfile → SandboxProfile

abbrev pub profile_name : SandboxProfile → String
profile_name (docker p) = p.name
profile_name (kas p) = p.name
profile_name (buildkite p) = p.name

abbrev pub profile_backend : SandboxProfile → String
profile_backend (docker p) = "docker"
profile_backend (kas p) = "kas"
profile_backend (buildkite p) = "buildkite"

abbrev pub profile_idle_ms : SandboxProfile → Option ℕ
profile_idle_ms (docker p) = p.idle_ms
profile_idle_ms (kas p) = p.idle_ms
profile_idle_ms (buildkite p) = p.idle_ms

-- `"image" in profile`, and the image.
abbrev pub profile_image : SandboxProfile → Option String
profile_image (docker p) = some p.image
profile_image (kas p) = none
profile_image (buildkite p) = some p.image

pub record Checkpoint : Type 0 where
  pub commit : Option Bytes
  pub branch : Option Bytes
  pub artifacts_dropped : Bool

pub record RecordBase : Type 0 where
  pub session_id : String
  pub backend : String
  pub profile : String
  pub repository_url : String
  pub created_at : ℕ
  pub updated_at : ℕ

-- A sandbox that exists, and the record fields beside it.
pub record RunningRecord : Type 0 where
  pub base : RecordBase
  pub open base use *
  pub sandbox_id : String
  pub reference : Reference

pub data SessionRecord : Type 0 where
  running : RunningRecord → SessionRecord
  hibernated : RunningRecord → Option ℕ → SessionRecord
  checkpointed : RecordBase → Checkpoint → Option ℕ → SessionRecord

abbrev pub base_of : SessionRecord → RecordBase
base_of (running r) = r.base
base_of (hibernated r deadline) = r.base
base_of (checkpointed b checkpoint deadline) = b

-- The same record with other shared fields.
abbrev pub with_base : SessionRecord → RecordBase → SessionRecord
with_base (running r) b = running (record r { base = b })
with_base (hibernated r deadline) b = hibernated (record r { base = b }) deadline
with_base (checkpointed _ checkpoint deadline) b = checkpointed b checkpoint deadline

abbrev pub expires_at : SessionRecord → Option ℕ
expires_at (running r) = none
expires_at (hibernated r deadline) = deadline
expires_at (checkpointed b checkpoint deadline) = deadline

abbrev pub has_repository : String → Bool
has_repository url = not (url == "")
