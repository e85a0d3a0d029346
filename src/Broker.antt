-- ===== src/Broker.antt =====
-- control-plane/src/credentials/broker.ts: the secrets that sandboxes receive, per scope, and the Git
-- credentials made of them. Texts are lists of codes. The key of a workspace, which takes an address apart
-- with the URL parser, and one write of the file are parameters. Reading the file is a module below.
pub mod File
pub mod Contents
pub mod Secrets
pub mod Hosts
pub mod Answers
pub mod Parsed
pub mod History
use dsh_yawn.Base.{
  ℕ, Bool, true, false, not, ◌&&◌, ◌||◌, Option, none, some, List, [], ◌∷◌, ◌++◌, any, eqb, length,
  or_default, if◌then◌else◌,
}
use dsh_yawn.Exec.{Error, failure, Result, ok, err}
use dsh_yawn.Codes.{Codes, same}
use dsh_yawn.Codes.Tables.{Table, lookup, insert, drop_key, spread}
use dsh_yawn.GitHosts.{
  GitHostCredential, github_host, github_secret, normalize_git_host, normalize_git_username,
  normalize_git_secret_name, is_environment_name, has_github_credential_row,
}

pub record BrokerFile : Type 0 where
  pub secrets : Table Codes
  pub workspaces : Table (Table Codes)
  pub git_hosts : List GitHostCredential

pub data SecretScope : Type 0 where
  global : SecretScope
  workspace : Codes → SecretScope

-- What reading a property of the plain object of secrets gives: a secret's text, or the member of
-- `Object.prototype` that every object has under that name.
pub data Password : Type 0 where
  own : Codes → Password
  inherited : Codes → Password

pub record GitCredential : Type 0 where
  pub host : Codes
  pub username : Codes
  pub password : Password

-- `broken` is the error of the first write that failed: the chain of writes stays rejected with it.
pub record CredentialBroker : Type 0 where
  pub state : BrokerFile
  pub disk : Option BrokerFile
  pub broken : Option Error

pub empty_file : BrokerFile
empty_file = record { secrets = []; workspaces = []; git_hosts = [] }

unfoldable pub fresh : CredentialBroker
unfolding empty_file
fresh = record { state = empty_file; disk = none; broken = none }

-- An entry in its normal form, or the first error.
pub normal_entry : Result Codes → Result Codes → Result Codes → Result GitHostCredential
normal_entry (ok host) (ok username) (ok secret) =
    ok (record { host = host; username = username; secret = secret })
normal_entry (err e) _ _ = err e
normal_entry (ok host) (err e) _ = err e
normal_entry (ok host) (ok username) (err e) = err e

pub normalize_entry : (host username secret : Codes) → Result GitHostCredential
unfolding normal_entry
normalize_entry host username secret =
    normal_entry (normalize_git_host host) (normalize_git_username username)
      (normalize_git_secret_name secret)

-- The entry takes the place of the first one of its host, or comes last.
pub put_host : List GitHostCredential → GitHostCredential → List GitHostCredential
put_host [] entry = entry ∷ []
put_host (x ∷ xs) entry = if same x.host entry.host then entry ∷ xs else x ∷ put_host xs entry

-- Without the first entry of the host.
pub drop_host : List GitHostCredential → Codes → List GitHostCredential
drop_host [] host = []
drop_host (x ∷ xs) host = if same x.host host then xs else x ∷ drop_host xs host

-- A scope that has no secret left goes.
pub scope_without : Table (Table Codes) → Codes → Table Codes → Table (Table Codes)
scope_without workspaces key [] = drop_key workspaces key
scope_without workspaces key (x ∷ xs) = insert workspaces key (x ∷ xs)

-- The names of `Object.prototype`.
object_members : List Codes
object_members =
    (b'c' ∷ b'o' ∷ b'n' ∷ b's' ∷ b't' ∷ b'r' ∷ b'u' ∷ b'c' ∷ b't' ∷ b'o' ∷ b'r' ∷ [])
    ∷ (b'h' ∷ b'a' ∷ b's' ∷ b'O' ∷ b'w' ∷ b'n' ∷ b'P' ∷ b'r' ∷ b'o' ∷ b'p' ∷ b'e' ∷ b'r' ∷ b't'
        ∷ b'y' ∷ [])
    ∷ (b'i' ∷ b's' ∷ b'P' ∷ b'r' ∷ b'o' ∷ b't' ∷ b'o' ∷ b't' ∷ b'y' ∷ b'p' ∷ b'e' ∷ b'O' ∷ b'f'
        ∷ [])
    ∷ (b'p' ∷ b'r' ∷ b'o' ∷ b'p' ∷ b'e' ∷ b'r' ∷ b't' ∷ b'y' ∷ b'I' ∷ b's' ∷ b'E' ∷ b'n' ∷ b'u'
        ∷ b'm' ∷ b'e' ∷ b'r' ∷ b'a' ∷ b'b' ∷ b'l' ∷ b'e' ∷ [])
    ∷ (b't' ∷ b'o' ∷ b'L' ∷ b'o' ∷ b'c' ∷ b'a' ∷ b'l' ∷ b'e' ∷ b'S' ∷ b't' ∷ b'r' ∷ b'i' ∷ b'n'
        ∷ b'g' ∷ [])
    ∷ (b't' ∷ b'o' ∷ b'S' ∷ b't' ∷ b'r' ∷ b'i' ∷ b'n' ∷ b'g' ∷ [])
    ∷ (b'v' ∷ b'a' ∷ b'l' ∷ b'u' ∷ b'e' ∷ b'O' ∷ b'f' ∷ [])
    ∷ (b'_' ∷ b'_' ∷ b'p' ∷ b'r' ∷ b'o' ∷ b't' ∷ b'o' ∷ b'_' ∷ b'_' ∷ [])
    ∷ (b'_' ∷ b'_' ∷ b'd' ∷ b'e' ∷ b'f' ∷ b'i' ∷ b'n' ∷ b'e' ∷ b'G' ∷ b'e' ∷ b't' ∷ b't' ∷ b'e'
        ∷ b'r' ∷ b'_' ∷ b'_' ∷ [])
    ∷ (b'_' ∷ b'_' ∷ b'd' ∷ b'e' ∷ b'f' ∷ b'i' ∷ b'n' ∷ b'e' ∷ b'S' ∷ b'e' ∷ b't' ∷ b't' ∷ b'e'
        ∷ b'r' ∷ b'_' ∷ b'_' ∷ [])
    ∷ (b'_' ∷ b'_' ∷ b'l' ∷ b'o' ∷ b'o' ∷ b'k' ∷ b'u' ∷ b'p' ∷ b'G' ∷ b'e' ∷ b't' ∷ b't' ∷ b'e'
        ∷ b'r' ∷ b'_' ∷ b'_' ∷ [])
    ∷ (b'_' ∷ b'_' ∷ b'l' ∷ b'o' ∷ b'o' ∷ b'k' ∷ b'u' ∷ b'p' ∷ b'S' ∷ b'e' ∷ b't' ∷ b't' ∷ b'e'
        ∷ b'r' ∷ b'_' ∷ b'_' ∷ [])
    ∷ []

-- `secrets[name]`
pub property : Table Codes → Codes → Option Password
unfolding object_members
property found name = elim (lookup found name) [
  | some text ↦ some (own text)
  | none ↦ if any (same name) object_members then some (inherited name) else none
]

-- The rows of the table whose secret is there, one per host.
pub resolve : Table Codes → List Codes → List GitHostCredential → List GitCredential
unfolding property
resolve found hosts [] = []
resolve found hosts (entry ∷ entries) =
    let rest = resolve found hosts entries in
    let more = resolve found (entry.host ∷ hosts) entries in
    if any (λ host. same host entry.host) hosts then rest else elim (property found entry.secret) [
      | none ↦ rest
      | some password ↦
          record { host = entry.host; username = entry.username; password = password } ∷ more
    ]

pub github_username : Codes
github_username =
    b'x' ∷ b'-' ∷ b'a' ∷ b'c' ∷ b'c' ∷ b'e' ∷ b's' ∷ b's' ∷ b'-' ∷ b't' ∷ b'o' ∷ b'k' ∷ b'e' ∷ b'n'
    ∷ []

pub built_in : Option Password → List GitCredential
unfolding github_username
built_in none = []
built_in (some token) =
    record { host = github_host; username = github_username; password = token } ∷ []

pub find_host : Codes → List GitCredential → Option GitCredential
find_host host [] = none
find_host host (c ∷ cs) = if same c.host host then some c else find_host host cs

-- An empty address reads the global scope.
pub scope_of : Option Codes → SecretScope
scope_of none = global
scope_of (some []) = global
scope_of (some (c ∷ cs)) = workspace (c ∷ cs)

module _ (workspace_key : Codes → Codes) where
  -- The names stored in one scope, before the merge.
  pub stored : CredentialBroker → SecretScope → Table Codes
  stored s global = s.state.secrets
  stored s (workspace url) = or_default (lookup s.state.workspaces (workspace_key url)) []

  pub secrets : CredentialBroker → SecretScope → Table Codes
  unfolding stored
  secrets s global = s.state.secrets
  secrets s (workspace url) = spread s.state.secrets (stored s (workspace url))

  -- The state after `setSecret`, before it is written.
  pub with_secret : CredentialBroker → SecretScope → Codes → Codes → CredentialBroker
  with_secret s global name value = record s {
    state = record s.state { secrets = insert s.state.secrets name value };
  }
  with_secret s (workspace url) name value =
      let key = workspace_key url in
      let scope = or_default (lookup s.state.workspaces key) [] in
      record s {
        state = record s.state {
          workspaces = insert s.state.workspaces key (insert scope name value);
        };
      }

  -- The state after `deleteSecret`; none for a scope that there is not.
  pub without_secret : CredentialBroker → SecretScope → Codes → Option CredentialBroker
  unfolding scope_without
  without_secret s global name =
      some (record s { state = record s.state { secrets = drop_key s.state.secrets name } })
  without_secret s (workspace url) name = elim (lookup s.state.workspaces (workspace_key url)) [
    | none ↦ none
    | some scope ↦ some (record s {
      state = record s.state {
        workspaces = scope_without s.state.workspaces (workspace_key url) (drop_key scope name);
      };
    })
  ]

  pub resolved_git_credentials : CredentialBroker → SecretScope → List GitCredential
  unfolding secrets resolve built_in property
  resolved_git_credentials s scope =
      resolve (secrets s scope) [] s.state.git_hosts
      ++ (if has_github_credential_row s.state.git_hosts
          then []
          else built_in (property (secrets s scope) github_secret))

  pub git_credential : CredentialBroker → Codes → Option Codes → Option GitCredential
  unfolding find_host scope_of resolved_git_credentials
  git_credential s host url = elim (normalize_git_host host) [
    | err e ↦ none
    | ok normalized ↦ find_host normalized (resolved_git_credentials s (scope_of url))
  ]

module _ {E : Type 0} (write : E → Option Error × E) where
  unfoldable pub attempt :
      CredentialBroker → Option Error × E → Result (Unit {0}) × CredentialBroker × E
  attempt s (none, e) = (ok tt, record s { disk = some s.state }, e)
  attempt s (some x, e) = (err x, record s { broken = some x }, e)

  unfoldable pub persist : CredentialBroker → E → Result (Unit {0}) × CredentialBroker × E
  unfolding attempt
  persist s e = elim s.broken [ some x ↦ (err x, s, e) | none ↦ attempt s (write e) ]

  pub add_host :
      CredentialBroker → Result GitHostCredential → E → Result (Unit {0}) × CredentialBroker × E
  unfolding put_host persist
  add_host s (err x) e = (err x, s, e)
  add_host s (ok entry) e =
      persist (record s { state = record s.state { git_hosts = put_host s.state.git_hosts entry } })
        e

  pub set_git_host :
      CredentialBroker
      → (host username secret : Codes) → E
      → Result (Unit {0}) × CredentialBroker × E
  unfolding normalize_entry add_host
  set_git_host s host username secret e = add_host s (normalize_entry host username secret) e

  pub remove_host : CredentialBroker → Result Codes → E → Result (Unit {0}) × CredentialBroker × E
  unfolding drop_host persist
  remove_host s (err x) e = (err x, s, e)
  remove_host s (ok normalized) e =
      if any (λ entry. same entry.host normalized) s.state.git_hosts
      then persist
          (record s {
            state = record s.state { git_hosts = drop_host s.state.git_hosts normalized };
          })
          e
      else (ok tt, s, e)

  pub delete_git_host : CredentialBroker → Codes → E → Result (Unit {0}) × CredentialBroker × E
  unfolding remove_host
  delete_git_host s host e = remove_host s (normalize_git_host host) e

  pub persist_changed :
      CredentialBroker → Option CredentialBroker → E → Result (Unit {0}) × CredentialBroker × E
  unfolding persist
  persist_changed s none e = (ok tt, s, e)
  persist_changed s (some changed) e = persist changed e

  module _ (workspace_key : Codes → Codes) where
    pub set_secret :
        CredentialBroker
        → SecretScope
        → Codes
        → Codes
        → E
        → Result (Unit {0}) × CredentialBroker × E
    unfolding with_secret persist
    set_secret s scope name value e =
        if is_environment_name name
        then persist (with_secret workspace_key s scope name value) e
        else (err (failure "invalid environment variable name"), s, e)

    pub delete_secret :
        CredentialBroker → SecretScope → Codes → E → Result (Unit {0}) × CredentialBroker × E
    unfolding without_secret persist_changed
    delete_secret s scope name e = persist_changed s (without_secret workspace_key s scope name) e
