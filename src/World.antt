-- ===== src/World.antt =====
-- What the session lifecycle acts on: the host's own state (the session store, the cached runners, the
-- checkpoint files) and an environment `E` that the calls to backends, runners, the broker and the
-- disk change. `Host` names those calls; none of them reaches the host's own state.
pub mod Rules
use dsh_yawn.Base.{ℕ, ◌≡◌, refl, String, Bool, Option, none, some, List, [], ◌∷◌, ◌++◌}
use dsh_yawn.Dict.{Dict, get, put, delete}
use dsh_yawn.Exec.{Error, Result, ok, err, Exec, modify}
use dsh_yawn.Records.{Bytes, RunningRecord, Checkpoint}
use dsh_yawn.Store.{SessionStore}
use dsh_yawn.Checkpoint.{ExecRequest, ExecEvent}

-- A runner client object.
abbrev pub Client : Type 0
Client = ℕ

pub record Host (E : Type 0) : Type 0 where
  -- `Date.now()`
  pub now : E → ℕ
  -- One write of the state file, and one write or removal of a checkpoint file: an error if it fails.
  pub write : E → Option Error × E
  pub write_file : E → Option Error × E
  -- One read of a checkpoint file: an error other than that there is none.
  pub read_file : E → Option Error × E
  -- `gateway.waitFor`, `gateway.drop` and the pause of `delay`.
  pub wait_for : String → ℕ → E → Result Client × E
  pub drop_runner : String → E → E
  pub pause : ℕ → E → E
  -- The sandbox id that the runner reports.
  pub client_health : Client → E → Result String × E
  -- `broker.refresh`, `setSecrets` for a workspace scope (`none` is the global one), and
  -- `setGitCredentials` with the broker's credentials for a repository.
  pub refresh : E → Result (Unit {0}) × E
  pub set_secrets : Client → Option String → E → Result (Unit {0}) × E
  pub set_git_credentials : Client → String → E → Result (Unit {0}) × E
  pub setup : Client → String → E → Result (Unit {0}) × E
  pub exec : Client → ExecRequest → E → List ExecEvent × E
  pub artifacts_dir : Bytes
  -- `buffer.toString()` on a text that is kept as its UTF-8 bytes.
  pub decode_text : Bytes → Bytes
  -- `normalizeRepositoryUrl` of credentials/broker.ts.
  pub normalize_url : String → String

pub record World (E : Type 0) : Type 0 where
  pub store : SessionStore
  pub clients : Dict Client
  pub bundles : Dict Bytes
  pub archives : Dict Bytes
  pub warnings : List String
  pub env : E

or_failed : Option Error → Option Bytes → Result (Option Bytes)
or_failed none bytes = ok bytes
or_failed (some x) bytes = err x

module _ {E A : Type 0} where
  -- A call that only the environment sees.
  unfoldable pub outside : (E → Result A × E) → Exec (World E) A
  outside f w = let (r, e) = f w.env in (r, record w { env = e })

module _ {E : Type 0} where
  unfoldable pub outside_silent : (E → E) → Exec (World E) (Unit {0})
  outside_silent f w = (ok tt, record w { env = f w.env })

  -- A call of the session store.
  unfoldable pub on_store :
      (SessionStore → E → Result (Unit {0}) × SessionStore × E) → Exec (World E) (Unit {0})
  on_store f w = let (r, s, e) = f w.store w.env in (r, record w { store = s; env = e })

  unfoldable pub warn : String → Exec (World E) (Unit {0})
  warn message w = (ok tt, record w { warnings = w.warnings ++ message ∷ [] })

  unfoldable pub cache_client : String → Client → Exec (World E) (Unit {0})
  cache_client id c w = (ok tt, record w { clients = put w.clients id c })

  -- `attachment.evict(sessionId)`
  unfoldable pub evict : String → Exec (World E) (Unit {0})
  evict id w = (ok tt, record w { clients = delete w.clients id })

  -- `CheckpointStore.read`: none for a file that is not there.
  pub read : Host E → (World E → Option Bytes) → Exec (World E) (Option Bytes)
  unfolding or_failed
  read h file w =
      let (failed, e) = h.read_file w.env in (or_failed failed (file w), record w { env = e })

  unfoldable pub written : World E → Option Error × E → World E → Result (Unit {0}) × World E
  written old (none, e) new = (ok tt, record new { env = e })
  written old (some x, e) new = (err x, record old { env = e })

  -- One checkpoint file written or removed: a failed call leaves the files as they were.
  unfoldable pub change_files : Host E → (World E → World E) → Exec (World E) (Unit {0})
  unfolding written
  change_files h f w = written w (h.write_file w.env) (f w)
