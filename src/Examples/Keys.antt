-- ===== src/Examples/Keys.antt =====
-- A broker whose table has one row, with its secret in one workspace.
use dsh_yawn.Base.{ℕ, ◌+◌, ◌≡◌, Option, none, some, List, [], ◌∷◌}
use dsh_yawn.Exec.{Error, failure, ok}
use dsh_yawn.Codes.{Codes}
use dsh_yawn.Codes.Tables.{lookup}
use dsh_yawn.Broker.{global, workspace, fresh, secrets, scope_of, git_credential}
use dsh_yawn.Broker.Secrets.{
  Request, keep_secret, forget_secret, keep_host, serve_all, follow_all, effective,
  serve_all-secrets,
}
use dsh_yawn.Broker.Contents.{contents}
use dsh_yawn.Broker.Hosts.{Tidy}
use dsh_yawn.Broker.Answers.{expected}
use dsh_yawn.Broker.History.{Event, asked, reloaded, run, run-Tidy, git_credential-expected}
use dsh_yawn.Examples.Texts.{typed_host, typed_host-normal}

-- The second write fails.
abbrev write : ℕ → Option Error × ℕ
write ℕ.zero = (none, 1)
write (ℕ.suc n) = (some (failure "disk full"), n + 2)

abbrev same_address : Codes → Codes
same_address url = url

abbrev url : Codes
url = b'w' ∷ []

abbrev token_name : Codes
token_name = b'T' ∷ []

abbrev requests : List Request
requests =
    keep_secret global token_name (b'1' ∷ [])
    ∷ keep_secret (workspace url) token_name (b'2' ∷ [])
    ∷ keep_host typed_host (b'u' ∷ []) token_name
    ∷ forget_secret global token_name
    ∷ []

abbrev events : List Event
events =
    reloaded (ok none)
    ∷ asked (keep_host typed_host (b'u' ∷ []) token_name)
    ∷ asked (keep_secret (workspace url) token_name (b'2' ∷ []))
    ∷ []

serve_all-secrets_example :
    lookup
      (secrets same_address (serve_all same_address write fresh requests 0).0 (workspace url))
      token_name
    ≡ effective same_address
        (follow_all same_address (contents fresh.state) requests)
        (workspace url)
        token_name
serve_all-secrets_example =
    serve_all-secrets same_address write fresh requests 0 (workspace url) token_name

run-Tidy_example : Tidy (run same_address write fresh events 0).0.state.git_hosts
run-Tidy_example = run-Tidy same_address write events 0

git_credential-expected_example :
    git_credential same_address (run same_address write fresh events 0).0 typed_host (some url)
    ≡ expected
        (secrets same_address (run same_address write fresh events 0).0 (scope_of (some url)))
        (run same_address write fresh events 0).0.state.git_hosts
        (b'a' ∷ b'.' ∷ b'b' ∷ [])
git_credential-expected_example =
    git_credential-expected same_address write events 0 typed_host (b'a' ∷ b'.' ∷ b'b' ∷ [])
      (some url) typed_host-normal
