-- ===== src/Examples.antt =====
-- A small host for the runs below: the environment is the clock, every call answers at once and one
-- backend serves the profile `dev`.
pub mod Parts
pub mod Sessions
pub mod Saved
pub mod Boots
pub mod Notes
pub mod Pages
pub mod Tunnels
pub mod Texts
pub mod Servers
pub mod Files
pub mod Logins
pub mod Masks
pub mod Waits
pub mod Keys
pub mod Found
use dsh_yawn.Base.{ℕ, ◌+◌, String, Bool, true, false, Option, none, some, List, [], ◌∷◌}
use dsh_yawn.Exec.{ok}
use dsh_yawn.Records.{
  DockerProfile, SandboxProfile, docker, RecordBase, RunningRecord, SessionRecord, running,
  hibernated,
}
use dsh_yawn.Registry.{SandboxBackend, Registry}
use dsh_yawn.ProfileChoice.{Settings}
use dsh_yawn.Store.{StateFile, SessionStore}
use dsh_yawn.World.{Host, World}
use dsh_yawn.Lifecycle.{Deps}

abbrev pub host : Host ℕ
host = record {
  now = λ e. e;
  write = λ e. (none, e);
  write_file = λ e. (none, e);
  read_file = λ e. (none, e);
  wait_for = λ sandbox timeout e. (ok 7, e + 1);
  drop_runner = λ sandbox e. e;
  pause = λ ms e. e + ms;
  client_health = λ c e. (ok "box", e);
  refresh = λ e. (ok tt, e);
  set_secrets = λ c scope e. (ok tt, e);
  set_git_credentials = λ c url e. (ok tt, e);
  setup = λ c url e. (ok tt, e);
  exec = λ c request e. ([], e);
  artifacts_dir = [];
  decode_text = λ bytes. bytes;
  normalize_url = λ url. url;
}

abbrev pub profile : SandboxProfile
profile = docker (record {
  name = "dev";
  image = "runner";
  binary = none;
  control_plane_url = "http://host";
  idle_ms = none;
})

abbrev pub backend : SandboxBackend ℕ
backend = record {
  name = "docker";
  supports_hibernate = true;
  wake_keeps_filesystem = none;
  provision = λ id url e. (ok (record { sandbox_id = "box"; reference = [] }), e + 1);
  hibernate = λ r e. (ok tt, e + 1);
  wake = λ r e. (ok (record { sandbox_id = "box"; reference = [] }), e + 1);
  destroy = λ r e. (ok tt, e + 1);
  expire_at = λ r deadline e. (ok tt, e);
  health = λ r e. (ok true, e);
}

abbrev pub registry : Registry ℕ
registry = record { profiles = ("dev", profile) ∷ []; backends = ("dev", backend) ∷ [] }

abbrev pub settings : Settings
settings = record { profiles = ("dev", profile) ∷ []; default_profile = some "dev" }

abbrev pub deps : Deps ℕ
deps = record {
  host = host;
  registry = registry;
  settings = settings;
  hooks = [];
  expires_after_ms = 1000;
}

abbrev pub base : RecordBase
base = record {
  session_id = "s";
  backend = "docker";
  profile = "dev";
  repository_url = "";
  created_at = 5;
  updated_at = 5;
}

abbrev pub box : RunningRecord
box = record { base = base; sandbox_id = "box"; reference = [] }

abbrev pub store_of : SessionRecord → SessionStore
store_of r = record {
  state = record { sessions = ("s", r) ∷ []; pending_profiles = []; disabled_mcp_servers = [] };
  disk = none;
  write_chain = ok tt;
}

-- Session `s` is asleep, until time 100; it is time 10.
abbrev pub asleep : World ℕ
asleep = record {
  store = store_of (hibernated box (some 100));
  clients = [];
  bundles = [];
  archives = [];
  warnings = [];
  env = 10;
}

-- Session `s` runs.
abbrev pub awake : World ℕ
awake = record {
  store = store_of (running box);
  clients = ("s", 7) ∷ [];
  bundles = [];
  archives = [];
  warnings = [];
  env = 10;
}

-- A backend that has no hibernation, so that putting the session away checkpoints it.
abbrev pub no_hibernate : Deps ℕ
no_hibernate = record deps {
  registry = record {
    profiles = ("dev", profile) ∷ [];
    backends = ("dev", record backend { supports_hibernate = false }) ∷ [];
  };
}
