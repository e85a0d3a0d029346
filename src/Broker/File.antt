-- ===== src/Broker/File.antt =====
-- control-plane/src/credentials/broker.ts: the file of the secrets, as it is read.
use dsh_yawn.Base.{ℕ, ◌||◌, Option, none, some, List, [], ◌∷◌, eqb, if◌then◌else◌}
use dsh_yawn.Exec.{Error, failure, Result, ok, err}
use dsh_yawn.Codes.{Codes}
use dsh_yawn.Codes.Tables.{Table}
use dsh_yawn.GitHosts.{GitHostCredential}
use dsh_yawn.Broker.{BrokerFile, CredentialBroker, empty_file, put_host, normalize_entry}

-- A file as it was read, with none where a field is missing or of another shape, and version 0
-- where there is none.
pub record StoredBroker : Type 0 where
  pub version : ℕ
  pub secrets : Option (Table Codes)
  pub workspaces : Option (Table (Table Codes))
  pub git_hosts : Option (List (Option GitHostCredential))

abbrev pub bad_format : {A : Type 0} → Result A
bad_format = err (failure "credential broker file has an unsupported format")

unfoldable pub parse_entry :
    Result GitHostCredential → List GitHostCredential → Result (List GitHostCredential)
unfolding put_host
parse_entry (ok entry) hosts = ok (put_host hosts entry)
parse_entry (err e) hosts = bad_format

unfoldable pub parse_from :
    List GitHostCredential → List (Option GitHostCredential) → Result (List GitHostCredential)
unfolding normalize_entry parse_entry
parse_from hosts [] = ok hosts
parse_from hosts (none ∷ values) = bad_format
parse_from hosts (some entry ∷ values) =
    elim (parse_entry (normalize_entry entry.host entry.username entry.secret) hosts) [
      | ok more ↦ parse_from more values
      | err e ↦ err e
    ]

unfoldable pub parse_git_hosts :
    Option (List (Option GitHostCredential)) → Result (List GitHostCredential)
unfolding parse_from
parse_git_hosts none = bad_format
parse_git_hosts (some values) = parse_from [] values

unfoldable pub with_hosts :
    Table Codes → Table (Table Codes) → Result (List GitHostCredential) → Result BrokerFile
with_hosts secrets workspaces (ok hosts) =
    ok (record { secrets = secrets; workspaces = workspaces; git_hosts = hosts })
with_hosts secrets workspaces (err e) = err e

unfoldable pub with_scopes :
    StoredBroker → Table Codes → Option (Table (Table Codes)) → Result BrokerFile
unfolding with_hosts parse_git_hosts
with_scopes file secrets none = bad_format
with_scopes file secrets (some scopes) =
    if eqb file.version 2
    then ok (record { secrets = secrets; workspaces = scopes; git_hosts = [] })
    else with_hosts secrets scopes (parse_git_hosts file.git_hosts)

unfoldable pub parse_secrets : StoredBroker → Option (Table Codes) → Result BrokerFile
unfolding with_scopes
parse_secrets file none = bad_format
parse_secrets file (some secrets) =
    if eqb file.version 1
    then ok (record { secrets = secrets; workspaces = []; git_hosts = [] })
    else with_scopes file secrets file.workspaces

unfoldable pub parse_broker_file : StoredBroker → Result BrokerFile
unfolding parse_secrets
parse_broker_file file =
    if eqb file.version 1 || (eqb file.version 2 || eqb file.version 3)
    then parse_secrets file file.secrets
    else bad_format

unfoldable pub refreshed :
    CredentialBroker → Result BrokerFile → Result (Unit {0}) × CredentialBroker
refreshed s (ok state) = (ok tt, record s { state = state; disk = some state })
refreshed s (err e) = (err e, s)

-- `file` is what reading came to: an error other than a missing file is thrown.
unfoldable pub read_file :
    CredentialBroker → Result (Option StoredBroker) → Result (Unit {0}) × CredentialBroker
unfolding refreshed empty_file parse_broker_file
read_file s (err e) = (err e, s)
read_file s (ok none) = (ok tt, record s { state = empty_file; disk = none })
read_file s (ok (some file)) = refreshed s (parse_broker_file file)

-- A write that failed is thrown before the file is read.
unfoldable pub after_writes :
    Option Error
    → CredentialBroker
    → Result (Option StoredBroker)
    → Result (Unit {0}) × CredentialBroker
unfolding read_file
after_writes (some e) s file = (err e, s)
after_writes none s file = read_file s file

unfoldable pub refresh :
    CredentialBroker → Result (Option StoredBroker) → Result (Unit {0}) × CredentialBroker
unfolding after_writes
refresh s file = after_writes s.broken s file
