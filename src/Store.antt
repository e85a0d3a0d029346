-- ===== src/Store.antt =====
-- control-plane/src/core/state-store.ts: the session records, the profiles picked before a session
-- has a sandbox, and each session's MCP choice, with their copy on disk. `write` is what the file
-- system does with one write, rename included (`some e` if it fails). `write_chain` is what the promise
-- of that name is settled with once the writes that were asked for have ended.
pub mod Durable
pub mod Memory
use dsh_yawn.Base.{
  ℕ, ◌≡◌, refl, String, Bool, true, false, Option, none, some, List, [], ◌∷◌, eqb, or_default, map,
  if◌then◌else◌,
}
use dsh_yawn.Dict.{Dict, get, put, delete, values}
use dsh_yawn.Exec.{Error, failure, Result, ok, err}
use dsh_yawn.Records.{SessionRecord, RecordBase, base_of, with_base}

pub record StateFile : Type 0 where
  pub sessions : Dict SessionRecord
  pub pending_profiles : Dict String
  pub disabled_mcp_servers : Dict (List String)

pub record SessionStore : Type 0 where
  pub state : StateFile
  pub disk : Option StateFile
  pub write_chain : Result (Unit {0})

empty_state : StateFile
empty_state = record { sessions = []; pending_profiles = []; disabled_mcp_servers = [] }

unfoldable pub fresh : Option StateFile → SessionStore
unfolding empty_state
fresh disk = record { state = empty_state; disk = disk; write_chain = ok tt }

-- A record as an older host may have written it: with no start time.
pub record StoredRecord : Type 0 where
  pub stored : SessionRecord
  pub has_created_at : Bool

-- The parsed file. A field that is absent or no object is `none`; a file that is no object has no
-- version.
pub record StoredFile : Type 0 where
  pub version : Option ℕ
  pub sessions : Option (Dict StoredRecord)
  pub pending_profiles : Option (Dict String)
  pub disabled_mcp_servers : Option (Dict (List String))

pub backfill : StoredRecord → SessionRecord
backfill r =
    let b = base_of r.stored in
    if r.has_created_at
    then r.stored
    else with_base r.stored (record b { created_at = b.updated_at })

pub backfill_start_times : Dict StoredRecord → Dict SessionRecord
unfolding backfill
backfill_start_times = map λ e. (e.0, backfill e.1)

parse_sessions : StoredFile → Bool → Option (Dict StoredRecord) → Result StateFile
unfolding backfill_start_times
parse_sessions file true (some sessions) = ok (record {
  sessions = backfill_start_times sessions;
  pending_profiles = or_default file.pending_profiles [];
  disabled_mcp_servers = or_default file.disabled_mcp_servers [];
})
parse_sessions file _ _ = err (failure "sandbox session state has an unsupported format")

pub parse_state : StoredFile → Result StateFile
unfolding parse_sessions
parse_state file =
    parse_sessions file (elim file.version [ none ↦ false | some v ↦ eqb v 1 ]) file.sessions

-- What reading and parsing the file comes to: a file that is not there, another error of the read or
-- of `JSON.parse`, or a value.
pub data Loaded : Type 0 where
  missing : Loaded
  unreadable : Error → Loaded
  parsed : StoredFile → Loaded

accept : SessionStore → Result StateFile → Result (Unit {0}) × SessionStore
accept s (ok state) = (ok tt, record s { state = state })
accept s (err e) = (err e, s)

pub initialize : SessionStore → Loaded → Result (Unit {0}) × SessionStore
unfolding accept parse_state
initialize s missing = (ok tt, s)
initialize s (unreadable e) = (err e, s)
initialize s (parsed file) = accept s (parse_state file)

unfoldable pub get_record : SessionStore → String → Option SessionRecord
get_record s id = get s.state.sessions id

unfoldable pub all_records : SessionStore → List SessionRecord
all_records s = values s.state.sessions

unfoldable pub pending_profile : SessionStore → String → Option String
pending_profile s id = get s.state.pending_profiles id

unfoldable pub disabled_mcp_servers : SessionStore → String → Option (List String)
disabled_mcp_servers s id = get s.state.disabled_mcp_servers id

module _ {E : Type 0} (write : E → Option Error × E) where
  -- `chain.then(callback)`: the callback of a rejected promise does not run, and the promise that
  -- comes of it is rejected with the same error.
  unfoldable pub and_then :
      Result (Unit {0}) → (E → Result (Unit {0}) × E) → E → Result (Unit {0}) × E
  and_then (ok _) callback e = callback e
  and_then (err x) callback e = (err x, e)

  unfoldable pub written_file : Option Error × E → Result (Unit {0}) × E
  written_file (none, e) = (ok tt, e)
  written_file (some x, e) = (err x, e)

  -- A promise that is fulfilled has written the state on its way.
  unfoldable pub file_after : SessionStore → Result (Unit {0}) → Option StateFile
  file_after s (ok _) = some s.state
  file_after s (err x) = s.disk

  unfoldable pub persist : SessionStore → E → Result (Unit {0}) × SessionStore × E
  unfolding and_then written_file file_after
  persist s e =
      let (answer, e') = and_then s.write_chain (λ e. written_file (write e)) e in
      (answer, record s { write_chain = answer; disk = file_after s answer }, e')

  unfoldable pub set_record :
      SessionStore → SessionRecord → E → Result (Unit {0}) × SessionStore × E
  unfolding persist
  set_record s r e =
      let id = (base_of r).session_id in
      persist
        (record s {
          state = record s.state {
            sessions = put s.state.sessions id r;
            pending_profiles = delete s.state.pending_profiles id;
          };
        })
        e

  unfoldable pub delete_record : SessionStore → String → E → Result (Unit {0}) × SessionStore × E
  unfolding persist
  delete_record s id e =
      persist (record s { state = record s.state { sessions = delete s.state.sessions id } }) e

  unfoldable pub set_pending_profile :
      SessionStore → String → String → E → Result (Unit {0}) × SessionStore × E
  unfolding persist
  set_pending_profile s id profile e =
      persist
        (record s {
          state = record s.state { pending_profiles = put s.state.pending_profiles id profile };
        })
        e

  unfoldable pub set_disabled_mcp_servers :
      SessionStore → String → List String → E → Result (Unit {0}) × SessionStore × E
  unfolding persist
  set_disabled_mcp_servers s id servers e =
      persist
        (record s {
          state = record s.state {
            disabled_mcp_servers = put s.state.disabled_mcp_servers id servers;
          };
        })
        e
