-- ===== src/Broker/Parsed.antt =====
-- The table of Git hosts that comes out of the file.
use dsh_yawn.Base.{
  ◌≡◌, refl, Bool, true, false, ◌||◌, Option, none, some, List, [], ◌∷◌, if◌then◌else◌, eqb,
}
use dsh_yawn.Exec.{Error, Result, ok, err}
use dsh_yawn.Codes.{Codes}
use dsh_yawn.Codes.Tables.{Table}
use dsh_yawn.GitHosts.{GitHostCredential, normalize_git_host}
use dsh_yawn.Broker.{BrokerFile, CredentialBroker, empty_file, normalize_entry}
use dsh_yawn.Broker.File.{
  StoredBroker, bad_format, parse_entry, parse_from, parse_git_hosts, with_hosts, with_scopes,
  parse_secrets, parse_broker_file, refreshed, read_file, after_writes, refresh,
}
use dsh_yawn.Broker.Hosts.{Tidy, put_host-Tidy, normalize_entry-Normal}

-- What a result holds, if it is not an error.
abbrev OkTidy : Result (List GitHostCredential) → Type 0
OkTidy (ok xs) = Tidy xs
OkTidy (err e) = Unit

parse_entry-Tidy :
    (r : Result GitHostCredential) (xs : List GitHostCredential)
    → ((entry : GitHostCredential) → r ≡ ok entry → normalize_git_host entry.host ≡ ok entry.host)
    → Tidy xs
    → OkTidy (parse_entry r xs)
unfolding parse_entry
parse_entry-Tidy (ok entry) xs n i = put_host-Tidy xs entry i (n entry refl)
parse_entry-Tidy (err e) xs n i = tt

parse_from-Tidy :
    (xs : List GitHostCredential) (values : List (Option GitHostCredential))
    → Tidy xs
    → OkTidy (parse_from xs values)
unfolding parse_from
parse_from-Tidy xs [] i = i
parse_from-Tidy xs (none ∷ values) i = tt
parse_from-Tidy xs (some entry ∷ values) i =
    (elim (parse_entry (normalize_entry entry.host entry.username entry.secret) xs)
        as (λ r. OkTidy r → OkTidy (elim r [ ok more ↦ parse_from more values | err e ↦ err e ])) [
          | ok more ↦ λ j. parse_from-Tidy more values j
          | err e ↦ λ j. tt
        ])
      (parse_entry-Tidy (normalize_entry entry.host entry.username entry.secret) xs
        (normalize_entry-Normal entry.host entry.username entry.secret) i)

parse_git_hosts-Tidy : (o : Option (List (Option GitHostCredential))) → OkTidy (parse_git_hosts o)
unfolding parse_git_hosts
parse_git_hosts-Tidy none = tt
parse_git_hosts-Tidy (some values) = parse_from-Tidy [] values (tt, tt)

abbrev OkFile : Result BrokerFile → Type 0
OkFile (ok f) = Tidy f.git_hosts
OkFile (err e) = Unit

with_hosts-OkFile :
    (s : Table Codes) (w : Table (Table Codes)) (r : Result (List GitHostCredential))
    → OkTidy r
    → OkFile (with_hosts s w r)
unfolding with_hosts
with_hosts-OkFile s w (ok xs) i = i
with_hosts-OkFile s w (err e) i = tt

OkFile-if : (b : Bool) (x y : Result BrokerFile) → OkFile x → OkFile y → OkFile (if b then x else y)
OkFile-if true x y i j = i
OkFile-if false x y i j = j

with_scopes-OkFile :
    (file : StoredBroker) (s : Table Codes) (w : Option (Table (Table Codes)))
    → OkFile (with_scopes file s w)
unfolding with_scopes
with_scopes-OkFile file s none = tt
with_scopes-OkFile file s (some scopes) =
    OkFile-if (eqb file.version 2)
      (ok (record { secrets = s; workspaces = scopes; git_hosts = [] }))
      (with_hosts s scopes (parse_git_hosts file.git_hosts)) (tt, tt)
      (with_hosts-OkFile s scopes (parse_git_hosts file.git_hosts)
        (parse_git_hosts-Tidy file.git_hosts))

parse_secrets-OkFile :
    (file : StoredBroker) (s : Option (Table Codes)) → OkFile (parse_secrets file s)
unfolding parse_secrets
parse_secrets-OkFile file none = tt
parse_secrets-OkFile file (some s) =
    OkFile-if (eqb file.version 1) (ok (record { secrets = s; workspaces = []; git_hosts = [] }))
      (with_scopes file s file.workspaces) (tt, tt) (with_scopes-OkFile file s file.workspaces)

parse_broker_file-OkFile : (file : StoredBroker) → OkFile (parse_broker_file file)
unfolding parse_broker_file
parse_broker_file-OkFile file =
    OkFile-if (eqb file.version 1 || (eqb file.version 2 || eqb file.version 3))
      (parse_secrets file file.secrets) bad_format (parse_secrets-OkFile file file.secrets) tt

abbrev pub Kept : CredentialBroker → Type 0
Kept s = Tidy s.state.git_hosts

refreshed-Kept :
    (s : CredentialBroker) (r : Result BrokerFile) → OkFile r → Kept s → Kept (refreshed s r).1
unfolding refreshed
refreshed-Kept s (ok f) i j = i
refreshed-Kept s (err e) i j = j

read_file-Kept :
    (s : CredentialBroker) (file : Result (Option StoredBroker))
    → Kept s
    → Kept (read_file s file).1
unfolding read_file empty_file
read_file-Kept s (err e) i = i
read_file-Kept s (ok none) i = (tt, tt)
read_file-Kept s (ok (some file)) i =
    refreshed-Kept s (parse_broker_file file) (parse_broker_file-OkFile file) i

after_writes-Kept :
    (o : Option Error) (s : CredentialBroker) (file : Result (Option StoredBroker))
    → Kept s
    → Kept (after_writes o s file).1
unfolding after_writes
after_writes-Kept (some e) s file i = i
after_writes-Kept none s file i = read_file-Kept s file i

pub refresh-Kept :
    (s : CredentialBroker) (file : Result (Option StoredBroker)) → Kept s → Kept (refresh s file).1
unfolding refresh
refresh-Kept s file i = after_writes-Kept s.broken s file i
