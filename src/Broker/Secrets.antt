-- ===== src/Broker/Secrets.antt =====
-- The secrets that a scope receives, after any requests.
use dsh_yawn.Base.{
  ◌≡◌, refl, ap, true, false, Option, none, some, List, [], ◌∷◌, or_default, or_else, if◌then◌else◌,
  ◌∙◌,
}
use dsh_yawn.Exec.{Error, failure, Result, err}
use dsh_yawn.Codes.{Codes}
use dsh_yawn.Codes.Tables.{lookup, lookup-spread}
use dsh_yawn.GitHosts.{normalize_git_host, is_environment_name}
use dsh_yawn.Broker.{
  CredentialBroker, SecretScope, global, workspace, stored, secrets, with_secret, without_secret,
  persist, set_secret, delete_secret, set_git_host, delete_git_host, normalize_entry,
}
use dsh_yawn.Broker.Contents.{
  Store, store_value, key_of, contents, persist-contents, with_secret-contents,
  persist_changed-contents, without_secret-contents, add_host-contents, remove_host-contents,
}

pub data Request : Type 0 where
  keep_secret : SecretScope → (name value : Codes) → Request
  forget_secret : SecretScope → (name : Codes) → Request
  keep_host : (host username secret : Codes) → Request
  forget_host : Codes → Request

module _ (workspace_key : Codes → Codes) where
  -- Names are checked where a secret is set.
  abbrev pub follow : Store → Request → Store
  follow own (keep_secret scope name value) =
      if is_environment_name name
      then store_value own (key_of workspace_key scope) name (some value)
      else own
  follow own (forget_secret scope name) = store_value own (key_of workspace_key scope) name none
  follow own _ = own

  abbrev pub follow_all : Store → List Request → Store
  follow_all own [] = own
  follow_all own (request ∷ requests) = follow_all (follow own request) requests

  -- A name of the workspace's own counts before one of all sandboxes.
  abbrev pub effective : Store → SecretScope → Codes → Option Codes
  effective own global n = own none n
  effective own (workspace url) n = or_else (own (some (workspace_key url)) n) (own none n)

module _ {E : Type 0} (workspace_key : Codes → Codes) (write : E → Option Error × E) where
  unfoldable pub serve : CredentialBroker → Request → E → Result (Unit {0}) × CredentialBroker × E
  serve s (keep_secret scope name value) e = set_secret write workspace_key s scope name value e
  serve s (forget_secret scope name) e = delete_secret write workspace_key s scope name e
  serve s (keep_host host username secret) e = set_git_host write s host username secret e
  serve s (forget_host host) e = delete_git_host write s host e

  pub serve_all : CredentialBroker → List Request → E → CredentialBroker × E
  unfolding serve
  serve_all s [] e = (s, e)
  serve_all s (request ∷ requests) e =
      let (answer, next, rest) = serve s request e in serve_all next requests rest

module _ {E : Type 0} (workspace_key : Codes → Codes) (write : E → Option Error × E) where
  serve-contents :
      (s : CredentialBroker) (request : Request) (e : E) (k : Option Codes) (n : Codes)
      → contents (serve workspace_key write s request e).1.state k n
        ≡ follow workspace_key (contents s.state) request k n
  unfolding serve set_secret delete_secret set_git_host delete_git_host
  serve-contents s (keep_secret scope name value) e k n =
      elim (is_environment_name name)
        as (λ b.
          contents
            (if b
              then persist write (with_secret workspace_key s scope name value) e
              else (err (failure "invalid environment variable name"), s, e)).1.state
            k n
          ≡ (if b
                then store_value (contents s.state) (key_of workspace_key scope) name (some value)
                else contents s.state)
              k n) [
                | true ↦
                    persist-contents write (with_secret workspace_key s scope name value) e k n
                    ∙ with_secret-contents workspace_key s scope name value k n
                | false ↦ refl
              ]
  serve-contents s (forget_secret scope name) e k n =
      persist_changed-contents write s (without_secret workspace_key s scope name) e k n
      ∙ without_secret-contents workspace_key s scope name k n
  serve-contents s (keep_host host username secret) e k n =
      add_host-contents write s (normalize_entry host username secret) e k n
  serve-contents s (forget_host host) e k n =
      remove_host-contents write s (normalize_git_host host) e k n

  serve_all-contents :
      (s : CredentialBroker) (requests : List Request) (e : E)
      → contents (serve_all workspace_key write s requests e).0.state
        ≡ follow_all workspace_key (contents s.state) requests
  unfolding serve_all
  serve_all-contents s [] e = refl
  serve_all-contents s (request ∷ requests) e =
      let next = serve workspace_key write s request e in
      serve_all-contents next.1 requests next.2
      ∙ ap (λ own. follow_all workspace_key own requests)
          (λ i k n. serve-contents s request e k n i)

  secrets-contents :
      (s : CredentialBroker) (scope : SecretScope) (n : Codes)
      → lookup (secrets workspace_key s scope) n
        ≡ effective workspace_key (contents s.state) scope n
  unfolding secrets stored
  secrets-contents s global n = refl
  secrets-contents s (workspace url) n =
      lookup-spread s.state.secrets (or_default (lookup s.state.workspaces (workspace_key url)) [])
        n

  -- After any requests, whatever came of their writes, a scope receives of each name the value that
  -- the last request for its workspace left, or where the workspace has none of its own, the last
  -- one for all sandboxes. A request with an invalid name changes nothing, and two addresses with
  -- one key are one workspace.
  pub serve_all-secrets :
      (s : CredentialBroker) (requests : List Request) (e : E) (scope : SecretScope) (n : Codes)
      → lookup (secrets workspace_key (serve_all workspace_key write s requests e).0 scope) n
        ≡ effective workspace_key (follow_all workspace_key (contents s.state) requests) scope n
  serve_all-secrets s requests e scope n =
      secrets-contents (serve_all workspace_key write s requests e).0 scope n
      ∙ ap (λ own. effective workspace_key own scope n) (serve_all-contents s requests e)
