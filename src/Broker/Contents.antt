-- ===== src/Broker/Contents.antt =====
-- What the broker has stored, scope by scope, and what each of its steps makes of it.
use dsh_yawn.Base.{
  ◌≡◌, refl, ap, Bool, true, false, ◌&&◌, any, Option, none, some, List, [], ◌∷◌, or_default,
  if◌then◌else◌, arith, inl, inr, Option-cases, Bool-cases, ◌∙◌,
}
use dsh_yawn.Exec.{Error, Result, ok, err}
use dsh_yawn.Codes.{Codes, same, same_iff}
use dsh_yawn.Codes.Tables.{Table, lookup, insert, drop_key, lookup-insert, lookup-drop_key}
use dsh_yawn.GitHosts.{GitHostCredential}
use dsh_yawn.Broker.{
  BrokerFile, CredentialBroker, SecretScope, global, workspace, with_secret, scope_without,
  without_secret, attempt, persist, put_host, drop_host, add_host, remove_host, persist_changed,
}

-- What the broker promises of secrets: a value for each scope and name. A scope is none for all
-- sandboxes, or the key of a workspace.
abbrev pub Store : Type 0
Store = Option Codes → Codes → Option Codes

abbrev pub same_key : Option Codes → Option Codes → Bool
same_key none none = true
same_key none (some k) = false
same_key (some j) none = false
same_key (some j) (some k) = same j k

abbrev pub store_value : Store → Option Codes → Codes → Option Codes → Store
store_value own key name value k n = if same_key key k && same name n then value else own k n

module _ (workspace_key : Codes → Codes) where
  abbrev pub key_of : SecretScope → Option Codes
  key_of global = none
  key_of (workspace url) = some (workspace_key url)

-- What is stored, scope by scope.
abbrev pub contents : BrokerFile → Store
contents f none n = lookup f.secrets n
contents f (some key) n = lookup (or_default (lookup f.workspaces key) []) n

abbrev pub dropped : CredentialBroker → Codes → CredentialBroker
dropped s host = record s {
  state = record s.state { git_hosts = drop_host s.state.git_hosts host };
}

lookup-empty : (n : Codes) → lookup {V = Codes} [] n ≡ none
unfolding lookup
lookup-empty n = refl

module _ {E : Type 0} (write : E → Option Error × E) where
  attempt-state :
      (s : CredentialBroker) (r : Option Error × E) → (attempt write s r).1.state ≡ s.state
  unfolding attempt
  attempt-state s (none, e) = refl
  attempt-state s (some x, e) = refl

  pub persist-state : (s : CredentialBroker) (e : E) → (persist write s e).1.state ≡ s.state
  unfolding persist
  persist-state s e = ground (arith, attempt-state s (write e))

  pub persist-contents :
      (s : CredentialBroker) (e : E) (k : Option Codes) (n : Codes)
      → contents (persist write s e).1.state k n ≡ contents s.state k n
  persist-contents s e k n = ap (λ f. contents f k n) (persist-state s e)

  with_hosts-contents :
      (f : BrokerFile) (hosts : List GitHostCredential) (k : Option Codes) (n : Codes)
      → contents (record f { git_hosts = hosts }) k n ≡ contents f k n
  with_hosts-contents f hosts none n = refl
  with_hosts-contents f hosts (some key) n = refl

  persist_hosts-contents :
      (s : CredentialBroker) (hosts : List GitHostCredential) (e : E) (k : Option Codes) (n : Codes)
      → contents
          (persist write (record s { state = record s.state { git_hosts = hosts } }) e).1.state
          k
          n
        ≡ contents s.state k n
  persist_hosts-contents s hosts e k n =
      persist-contents (record s { state = record s.state { git_hosts = hosts } }) e k n
      ∙ with_hosts-contents s.state hosts k n

  pub add_host-contents :
      (s : CredentialBroker) (r : Result GitHostCredential) (e : E) (k : Option Codes) (n : Codes)
      → contents (add_host write s r e).1.state k n ≡ contents s.state k n
  unfolding add_host
  add_host-contents s (err x) e k n = refl
  add_host-contents s (ok entry) e k n =
      persist_hosts-contents s (put_host s.state.git_hosts entry) e k n

  pub remove_host-contents :
      (s : CredentialBroker) (r : Result Codes) (e : E) (k : Option Codes) (n : Codes)
      → contents (remove_host write s r e).1.state k n ≡ contents s.state k n
  unfolding remove_host
  remove_host-contents s (err x) e k n = refl
  remove_host-contents s (ok host) e k n =
      elim (Bool-cases (any (λ entry. same entry.host host) s.state.git_hosts)) [
        | inl there ↦
            ap
              (λ b.
                contents (if b then persist write (dropped s host) e else (ok tt, s, e)).1.state k
                  n)
              there
            ∙ persist_hosts-contents s (drop_host s.state.git_hosts host) e k n
        | inr missing ↦
            ap
              (λ b.
                contents (if b then persist write (dropped s host) e else (ok tt, s, e)).1.state k
                  n)
              missing
      ]

  pub persist_changed-contents :
      (s : CredentialBroker) (o : Option CredentialBroker) (e : E) (k : Option Codes) (n : Codes)
      → contents (persist_changed write s o e).1.state k n ≡ contents (or_default o s).state k n
  unfolding persist_changed
  persist_changed-contents s none e k n = refl
  persist_changed-contents s (some changed) e k n = persist-contents changed e k n

module _ (workspace_key : Codes → Codes) (s : CredentialBroker) where
  pub with_secret-contents :
      (scope : SecretScope) (name value : Codes) (k : Option Codes) (n : Codes)
      → contents (with_secret workspace_key s scope name value).state k n
        ≡ store_value (contents s.state) (key_of workspace_key scope) name (some value) k n
  unfolding with_secret
  with_secret-contents global name value none n = lookup-insert s.state.secrets name n value
  with_secret-contents global name value (some k) n = refl
  with_secret-contents (workspace url) name value none n = refl
  with_secret-contents (workspace url) name value (some k) n =
      let scope = or_default (lookup s.state.workspaces (workspace_key url)) [] in
      ground (
        arith,
        same_iff (workspace_key url) k,
        lookup-insert s.state.workspaces (workspace_key url) k (insert scope name value),
        lookup-insert scope name n value,
      )

  scope_without-lookup :
      (key : Codes) (scope : Table Codes) (k : Codes)
      → or_default (lookup (scope_without s.state.workspaces key scope) k) []
        ≡ (if same key k then scope else or_default (lookup s.state.workspaces k) [])
  unfolding scope_without
  scope_without-lookup key [] k = ground (arith, lookup-drop_key s.state.workspaces key k)
  scope_without-lookup key (x ∷ xs) k =
      ground (arith, lookup-insert s.state.workspaces key k (x ∷ xs))

  pub without_secret-contents :
      (scope : SecretScope) (name : Codes) (k : Option Codes) (n : Codes)
      → contents (or_default (without_secret workspace_key s scope name) s).state k n
        ≡ store_value (contents s.state) (key_of workspace_key scope) name none k n
  unfolding without_secret
  without_secret-contents global name none n = lookup-drop_key s.state.secrets name n
  without_secret-contents global name (some k) n = refl
  without_secret-contents (workspace url) name none n =
      elim (Option-cases (lookup s.state.workspaces (workspace_key url))) [
        | inl lost ↦ ground (arith, lost)
        | inr (scope, found) ↦ ground (arith, found)
      ]
  without_secret-contents (workspace url) name (some k) n =
      elim (Option-cases (lookup s.state.workspaces (workspace_key url))) [
        | inl lost ↦ ground (arith, lost, same_iff (workspace_key url) k, lookup-empty n)
        | inr (scope, found) ↦ ground (
          arith,
          found,
          same_iff (workspace_key url) k,
          scope_without-lookup (workspace_key url) (drop_key scope name) k,
          lookup-drop_key scope name n,
        )
      ]
