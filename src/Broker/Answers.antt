-- ===== src/Broker/Answers.antt =====
-- Which credential a host is given.
use dsh_yawn.Base.{
  ◌≡◌, refl, true, false, Option, none, some, List, [], ◌∷◌, ◌++◌, any, is_some, or_else,
  if◌then◌else◌, arith, inl, inr, Option-cases, ◌∙◌,
}
use dsh_yawn.Codes.{Codes, same, same_iff}
use dsh_yawn.Codes.Tables.{Table}
use dsh_yawn.GitHosts.{GitHostCredential, github_host, github_secret, has_github_credential_row}
use dsh_yawn.Broker.{
  CredentialBroker, SecretScope, GitCredential, Password, property, secrets, resolve, built_in,
  github_username, resolved_git_credentials, find_host,
}
use dsh_yawn.Broker.Hosts.{has_host, HostsOnce}

-- The row of a host.
abbrev pub row_of : List GitHostCredential → Codes → Option GitHostCredential
row_of [] host = none
row_of (x ∷ xs) host = if same x.host host then some x else row_of xs host

-- What a host is given: what its row's secret reads on the object of secrets, if that is anything (a
-- stored secret, or what every object has under that name); without a row, the GitHub token for
-- github.com, and nothing for another host.
abbrev pub expected : Table Codes → List GitHostCredential → Codes → Option GitCredential
expected found xs host = elim (row_of xs host) [
  | some row ↦ elim (property found row.secret) [
    | none ↦ none
    | some password ↦
        some (record { host = row.host; username = row.username; password = password })
  ]
  | none ↦
      if same github_host host
      then elim (property found github_secret) [
        | none ↦ none
        | some token ↦
            some (record { host = github_host; username = github_username; password = token })
      ]
      else none
]

module _ (found : Table Codes) where
  -- The first row of the host whose secret is there.
  answer : List GitHostCredential → Codes → Option GitCredential
  answer [] host = none
  answer (x ∷ xs) host =
      let rest = answer xs host in
      if same x.host host
      then elim (property found x.secret) [
        | none ↦ rest
        | some password ↦
            some (record { host = x.host; username = x.username; password = password })
      ]
      else rest

  find_host-resolve :
      (seen : List Codes) (xs : List GitHostCredential) (host : Codes)
      → find_host host (resolve found seen xs)
        ≡ (if any (λ h. same h host) seen then none else answer xs host)
  unfolding find_host resolve answer
  find_host-resolve seen [] host = ground arith
  find_host-resolve seen (x ∷ xs) host = elim (Option-cases (property found x.secret)) [
    | inl lost ↦ ground (arith, lost, same_iff x.host host, find_host-resolve seen xs host)
    | inr (password, there) ↦ ground (
      arith,
      there,
      same_iff x.host host,
      find_host-resolve seen xs host,
      find_host-resolve (x.host ∷ seen) xs host,
    )
  ]

  answer-missing :
      (xs : List GitHostCredential) (host : Codes)
      → has_host xs host ≡ false
      → answer xs host ≡ none
  unfolding answer
  answer-missing [] host e = refl
  answer-missing (x ∷ xs) host e = ground (arith, e, answer-missing xs host)

  answer-row :
      (xs : List GitHostCredential) (host : Codes)
      → HostsOnce xs
      → answer xs host ≡ elim (row_of xs host) [
        | none ↦ none
        | some row ↦ elim (property found row.secret) [
          | none ↦ none
          | some password ↦
              some (record { host = row.host; username = row.username; password = password })
        ]
      ]
  unfolding answer
  answer-row [] host i = refl
  answer-row (x ∷ xs) host (once, more) = elim (Option-cases (property found x.secret)) [
    | inl lost ↦
        ground
          (arith, lost, same_iff x.host host, once, answer-row xs host more, answer-missing xs host)
    | inr (password, there) ↦ ground (arith, there, answer-row xs host more)
  ]

row_of-has_host :
    (xs : List GitHostCredential) (host : Codes) → is_some (row_of xs host) ≡ has_host xs host
row_of-has_host [] host = refl
row_of-has_host (x ∷ xs) host = ground (arith, row_of-has_host xs host)

find_host-append :
    (host : Codes) (xs ys : List GitCredential)
    → find_host host (xs ++ ys) ≡ or_else (find_host host xs) (find_host host ys)
unfolding find_host
find_host-append host [] ys = refl
find_host-append host (x ∷ xs) ys = ground (arith, find_host-append host xs ys)

find_host-built_in :
    (host : Codes) (token : Option Password)
    → find_host host (built_in token) ≡ (
        if same github_host host
        then elim token [
          | none ↦ none
          | some t ↦ some (record { host = github_host; username = github_username; password = t })
        ]
        else none)
unfolding find_host built_in
find_host-built_in host none = ground arith
find_host-built_in host (some token) = refl

-- The built-in row, unless the table has one of github.com.
built_in_unless : Table Codes → List GitHostCredential → List GitCredential
built_in_unless found xs =
    if has_host xs github_host then [] else built_in (property found github_secret)

module _ (found : Table Codes) (xs : List GitHostCredential) (host : Codes) where
  find_host-built_in_unless : find_host host (built_in_unless found xs) ≡ (
      if has_host xs github_host
      then none
      else find_host host (built_in (property found github_secret)))
  unfolding built_in_unless find_host
  find_host-built_in_unless =
      elim (has_host xs github_host)
        as (λ b.
          find_host host (if b then [] else built_in (property found github_secret))
          ≡ (if b then none else find_host host (built_in (property found github_secret)))) [
            | true ↦ refl
            | false ↦ refl
          ]

  find_host-all :
      HostsOnce xs
      → find_host host (resolve found [] xs ++ built_in_unless found xs) ≡ expected found xs host
  find_host-all once =
      find_host-append host (resolve found [] xs) (built_in_unless found xs)
      ∙ (elim (Option-cases (row_of xs host)) [
        | inl lost ↦ ground (
          arith,
          lost,
          find_host-resolve found [] xs host,
          answer-row found xs host once,
          find_host-built_in_unless,
          row_of-has_host xs host,
          same_iff github_host host,
          find_host-built_in host (property found github_secret),
        )
        | inr (row, there) ↦ ground (
          arith,
          there,
          find_host-resolve found [] xs host,
          answer-row found xs host once,
          find_host-built_in_unless,
          row_of-has_host xs host,
          same_iff github_host host,
          find_host-built_in host (property found github_secret),
        )
      ])

module _ (workspace_key : Codes → Codes) (s : CredentialBroker) where
  pub find_host-resolved_git_credentials :
      (scope : SecretScope) (host : Codes)
      → HostsOnce s.state.git_hosts
      → find_host host (resolved_git_credentials workspace_key s scope)
        ≡ expected (secrets workspace_key s scope) s.state.git_hosts host
  unfolding resolved_git_credentials has_github_credential_row built_in_unless
  find_host-resolved_git_credentials scope host once =
      find_host-all (secrets workspace_key s scope) s.state.git_hosts host once
