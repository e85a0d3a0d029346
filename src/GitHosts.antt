-- ===== src/GitHosts.antt =====
-- control-plane/src/credentials/git-hosts.ts: the table that says which secret is the password of
-- which Git host, and how its entries are normalized. Texts are lists of codes.
pub mod Normal
use dsh_yawn.Base.{
  ℕ, ◌+◌, Bool, true, false, not, ◌&&◌, ◌||◌, Option, none, some, List, [], ◌∷◌, ◌++◌, map, length,
  keep, every, any, eqb, leb, ltb, if◌then◌else◌,
}
use dsh_yawn.Exec.{failure, Result, ok, err}
use dsh_yawn.Codes.{Codes, is_digit, is_lower, is_upper, lower, trim, same, span}
use dsh_yawn.Codes.Decimal.{decimal, number}

pub record GitHostCredential : Type 0 where
  pub host : Codes
  pub username : Codes
  pub secret : Codes

-- `github.com`
abbrev pub github_host : Codes
github_host = b'g' ∷ b'i' ∷ b't' ∷ b'h' ∷ b'u' ∷ b'b' ∷ b'.' ∷ b'c' ∷ b'o' ∷ b'm' ∷ []

-- `GITHUB_TOKEN`
abbrev pub github_secret : Codes
github_secret =
    b'G' ∷ b'I' ∷ b'T' ∷ b'H' ∷ b'U' ∷ b'B' ∷ b'_' ∷ b'T' ∷ b'O' ∷ b'K' ∷ b'E' ∷ b'N' ∷ []

-- `[a-z0-9.-]`, of a text in lower case
unfoldable pub in_host : ℕ → Bool
in_host c = is_lower c || (is_digit c || (eqb c b'.' || eqb c b'-'))

unfoldable pub is_alnum : ℕ → Bool
is_alnum c = is_lower c || is_digit c

unfoldable pub ends_alnum : Codes → Bool
ends_alnum [] = false
ends_alnum (c ∷ []) = is_alnum c
ends_alnum (c ∷ d ∷ cs) = ends_alnum (d ∷ cs)

-- `HOST_LABEL`
unfoldable pub is_label : Codes → Bool
unfolding is_alnum ends_alnum
is_label [] = false
is_label (c ∷ cs) =
    is_alnum c && (ends_alnum (c ∷ cs) && every (λ x. is_alnum x || eqb x b'-') (c ∷ cs))

unfoldable pub onto_first : ℕ → List Codes → List Codes
onto_first c [] = (c ∷ []) ∷ []
onto_first c (label ∷ labels) = (c ∷ label) ∷ labels

-- `hostname.split(".")`
unfoldable pub labels_of : Codes → List Codes
unfolding onto_first
labels_of [] = [] ∷ []
labels_of (c ∷ cs) = let rest = labels_of cs in if eqb c b'.' then [] ∷ rest else onto_first c rest

-- `HOST_WITH_PORT`: the host name, and the digits of a port
unfoldable pub match_port : Codes × Codes → Option (Codes × Option Codes)
match_port ([], rest) = none
match_port (c ∷ cs, []) = some (c ∷ cs, none)
match_port (c ∷ cs, x ∷ port) =
    if eqb x b':' && (every is_digit port && (leb 1 (length port) && leb (length port) 5))
    then some (c ∷ cs, some port)
    else none

bad_host : Result Codes
bad_host = err (failure "Enter a host name, optionally with a port")

-- Git leaves the port of HTTPS out of the host that it asks for.
unfoldable pub with_port : Codes → ℕ → Result Codes
with_port hostname value =
    if ltb value 1 || ltb 65535 value
    then err (failure "Enter a port between 1 and 65535")
    else if eqb value 443
    then ok hostname
    else ok (hostname ++ b':' ∷ decimal value)

unfoldable pub host_and_port : Codes → Option Codes → Result Codes
unfolding with_port
host_and_port hostname none = ok hostname
host_and_port hostname (some port) = with_port hostname (number port)

unfoldable pub matched_host : Option (Codes × Option Codes) → Result Codes
unfolding bad_host host_and_port labels_of is_label
matched_host none = bad_host
matched_host (some (hostname, port)) =
    if every is_label (labels_of hostname) then host_and_port hostname port else bad_host

unfoldable pub normalize_git_host : Codes → Result Codes
unfolding matched_host match_port in_host
normalize_git_host input = matched_host (match_port (span in_host (lower (trim input))))

-- The user name that Git sends is one line.
pub normalize_git_username : Codes → Result Codes
normalize_git_username input =
    let username = trim input in
    if eqb (length username) 0 || any (λ c. eqb c 13 || eqb c 10) username
    then err (failure "Enter a username")
    else ok username

starts_name : ℕ → Bool
starts_name c = is_upper c || (is_lower c || eqb c b'_')

-- `ENVIRONMENT_NAME`
pub is_environment_name : Codes → Bool
unfolding starts_name
is_environment_name [] = false
is_environment_name (c ∷ cs) = starts_name c && every (λ x. starts_name x || is_digit x) cs

pub normalize_git_secret_name : Codes → Result Codes
unfolding is_environment_name
normalize_git_secret_name input =
    let name = trim input in
    if is_environment_name name
    then ok name
    else err (failure "Enter a secret name: letters, digits, and underscores")

-- Whether the table names github.com, which replaces the built-in row.
unfoldable pub has_github_credential_row : List GitHostCredential → Bool
has_github_credential_row rows = any (λ entry. same entry.host github_host) rows

-- The hosts a secret name supplies, including the built-in github.com row.
git_hosts_for_secret : List GitHostCredential → Codes → List Codes
unfolding has_github_credential_row
git_hosts_for_secret rows name =
    let hosts = map (λ entry. entry.host) (keep (λ entry. same entry.secret name) rows) in
    if same name github_secret && not (has_github_credential_row rows)
    then github_host ∷ hosts
    else hosts
