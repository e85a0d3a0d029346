-- ===== src/Broker/History.antt =====
-- The credentials that are given out after any history of the broker.
use dsh_yawn.Base.{
  ◌≡◌, refl, ap, subst, sym, true, false, Option, none, some, List, [], ◌∷◌, any, if◌then◌else◌,
  arith, inl, inr, Option-cases, ◌∙◌, or_default,
}
use dsh_yawn.Exec.{Error, failure, Result, ok, err}
use dsh_yawn.Codes.{Codes, same}
use dsh_yawn.Codes.Tables.{lookup}
use dsh_yawn.GitHosts.{GitHostCredential, normalize_git_host, is_environment_name}
use dsh_yawn.Broker.{
  CredentialBroker, SecretScope, global, workspace, fresh, empty_file, secrets, put_host,
  normalize_entry, scope_of, git_credential, resolved_git_credentials, find_host, with_secret,
  without_secret, persist, add_host, remove_host, persist_changed, set_secret, delete_secret,
  set_git_host, delete_git_host,
}
use dsh_yawn.Broker.File.{StoredBroker, refresh}
use dsh_yawn.Broker.Secrets.{Request, keep_secret, forget_secret, keep_host, forget_host, serve}
use dsh_yawn.Broker.Contents.{persist-state, dropped}
use dsh_yawn.Broker.Hosts.{Tidy, put_host-Tidy, drop_host-Tidy, normalize_entry-Normal}
use dsh_yawn.Broker.Parsed.{Kept, refresh-Kept}
use dsh_yawn.Broker.Answers.{expected, find_host-resolved_git_credentials}

module _ {E : Type 0} (workspace_key : Codes → Codes) (write : E → Option Error × E) where
  persist-Kept : (s : CredentialBroker) (e : E) → Kept s → Kept (persist write s e).1
  persist-Kept s e i = subst (λ f. Tidy f.git_hosts) (sym (persist-state write s e)) i

  add_host-Kept :
      (s : CredentialBroker) (r : Result GitHostCredential) (e : E)
      → ((entry : GitHostCredential) → r ≡ ok entry → normalize_git_host entry.host ≡ ok entry.host)
      → Kept s
      → Kept (add_host write s r e).1
  unfolding add_host
  add_host-Kept s (err x) e n i = i
  add_host-Kept s (ok entry) e n i =
      persist-Kept
        (record s { state = record s.state { git_hosts = put_host s.state.git_hosts entry } }) e
        (put_host-Tidy s.state.git_hosts entry i (n entry refl))

  remove_host-Kept :
      (s : CredentialBroker) (r : Result Codes) (e : E) → Kept s → Kept (remove_host write s r e).1
  unfolding remove_host
  remove_host-Kept s (err x) e i = i
  remove_host-Kept s (ok host) e i =
      elim (any (λ entry. same entry.host host) s.state.git_hosts)
        as (λ b. Kept (if b then persist write (dropped s host) e else (ok tt, s, e)).1) [
          | true ↦ persist-Kept (dropped s host) e (drop_host-Tidy s.state.git_hosts host i)
          | false ↦ i
        ]

  persist_changed-Kept :
      (s : CredentialBroker) (o : Option CredentialBroker) (e : E)
      → Kept (or_default o s)
      → Kept (persist_changed write s o e).1
  unfolding persist_changed
  persist_changed-Kept s none e i = i
  persist_changed-Kept s (some changed) e i = persist-Kept changed e i

  with_secret-Kept :
      (s : CredentialBroker) (scope : SecretScope) (name value : Codes)
      → Kept s
      → Kept (with_secret workspace_key s scope name value)
  unfolding with_secret
  with_secret-Kept s global name value i = i
  with_secret-Kept s (workspace url) name value i = i

  without_secret-git_hosts :
      (s : CredentialBroker) (url name : Codes)
      → (or_default (without_secret workspace_key s (workspace url) name) s).state.git_hosts
        ≡ s.state.git_hosts
  unfolding without_secret
  without_secret-git_hosts s url name =
      elim (Option-cases (lookup s.state.workspaces (workspace_key url))) [
        | inl lost ↦ ground (arith, lost)
        | inr (scope, found) ↦ ground (arith, found)
      ]

  without_secret-Kept :
      (s : CredentialBroker) (scope : SecretScope) (name : Codes)
      → Kept s
      → Kept (or_default (without_secret workspace_key s scope name) s)
  unfolding without_secret
  without_secret-Kept s global name i = i
  without_secret-Kept s (workspace url) name i =
      subst Tidy (sym (without_secret-git_hosts s url name)) i

  serve-Kept :
      (s : CredentialBroker) (request : Request) (e : E)
      → Kept s
      → Kept (serve workspace_key write s request e).1
  unfolding serve set_secret delete_secret set_git_host delete_git_host
  serve-Kept s (keep_secret scope name value) e i =
      elim (is_environment_name name)
        as (λ b.
          Kept
            (if b
              then persist write (with_secret workspace_key s scope name value) e
              else (err (failure "invalid environment variable name"), s, e)).1) [
                | true ↦
                    persist-Kept (with_secret workspace_key s scope name value) e
                      (with_secret-Kept s scope name value i)
                | false ↦ i
              ]
  serve-Kept s (forget_secret scope name) e i =
      persist_changed-Kept s (without_secret workspace_key s scope name) e
        (without_secret-Kept s scope name i)
  serve-Kept s (keep_host host username secret) e i =
      add_host-Kept s (normalize_entry host username secret) e
        (normalize_entry-Normal host username secret) i
  serve-Kept s (forget_host host) e i = remove_host-Kept s (normalize_git_host host) e i

pub data Event : Type 0 where
  asked : Request → Event
  reloaded : Result (Option StoredBroker) → Event

module _ {E : Type 0} (workspace_key : Codes → Codes) (write : E → Option Error × E) where
  unfoldable pub handle : CredentialBroker → Event → E → CredentialBroker × E
  handle s (asked request) e =
      let (answer, next, rest) = serve workspace_key write s request e in (next, rest)
  handle s (reloaded file) e = ((refresh s file).1, e)

  unfoldable pub run : CredentialBroker → List Event → E → CredentialBroker × E
  unfolding handle
  run s [] e = (s, e)
  run s (event ∷ events) e = let (next, rest) = handle s event e in run next events rest

  handle-Kept : (s : CredentialBroker) (event : Event) (e : E) → Kept s → Kept (handle s event e).0
  unfolding handle
  handle-Kept s (asked request) e i = serve-Kept workspace_key write s request e i
  handle-Kept s (reloaded file) e i = refresh-Kept s file i

  run-Kept : (s : CredentialBroker) (events : List Event) (e : E) → Kept s → Kept (run s events e).0
  unfolding run
  run-Kept s [] e i = i
  run-Kept s (event ∷ events) e i =
      run-Kept (handle s event e).0 events (handle s event e).1 (handle-Kept s event e i)

  fresh-Kept : Kept fresh
  unfolding fresh empty_file
  fresh-Kept = (tt, tt)

  -- In every history of requests and of files that were read, whatever came of the writes, no host
  -- stands in the table of Git hosts twice, and every host in it is in its normal form.
  pub run-Tidy : (events : List Event) (e : E) → Tidy (run fresh events e).0.state.git_hosts
  run-Tidy events e = run-Kept fresh events e fresh-Kept

  -- In every history, a host is given what the secret name of its row reads on the scope's object of
  -- secrets, if that is anything: the stored secret, or for a name of `Object.prototype` that is not
  -- stored the inherited member; without a row, the GitHub token if it is github.com, and nothing
  -- otherwise. So a row of github.com whose secret is missing leaves github.com without a credential.
  pub git_credential-expected :
      (events : List Event) (e : E) (host normalized : Codes) (url : Option Codes)
      → normalize_git_host host ≡ ok normalized
      → git_credential workspace_key (run fresh events e).0 host url
        ≡ expected
            (secrets workspace_key (run fresh events e).0 (scope_of url))
            (run fresh events e).0.state.git_hosts
            normalized
  unfolding git_credential
  git_credential-expected events e host normalized url known =
      let s = (run fresh events e).0 in
      ap
        (λ r. elim r [
          | err x ↦ none
          | ok h ↦ find_host h (resolved_git_credentials workspace_key s (scope_of url))
        ])
        known
      ∙ find_host-resolved_git_credentials workspace_key s (scope_of url) normalized
          (run-Tidy events e).0
