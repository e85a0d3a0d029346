-- ===== src/ProfileChoice.antt =====
-- control-plane/src/sandbox/manager/profile-choice.ts: the profile a session runs under, or would be
-- provisioned with before it has a sandbox.
pub mod Pending
use dsh_yawn.Base.{
  ℕ, ◌≡◌, refl, String, Bool, true, false, Option, none, some, List, [], ◌∷◌, map, is_some, or_else,
  or_default,
}
use dsh_yawn.Dict.{Dict, get, values}
use dsh_yawn.Exec.{Error, failure, Result, ok, err}
use dsh_yawn.Records.{SandboxProfile, profile_name, profile_backend, SessionRecord, base_of}
use dsh_yawn.Store.{SessionStore, get_record, pending_profile, set_pending_profile}

-- The live settings that the choice reads.
pub record Settings : Type 0 where
  pub profiles : Dict SandboxProfile
  pub default_profile : Option String

pub record ProfileView : Type 0 where
  pub profiles : List (String × String)
  pub selected : String
  pub locked : Bool

module _ (settings : Settings) where
  pub pending_name : SessionStore → String → Option String
  unfolding pending_profile
  pending_name s id = or_else (pending_profile s id) settings.default_profile

  -- `record?.profile ?? this.pendingName(sessionId)`
  pub chosen_name : Option SessionRecord → Option String → Option String
  chosen_name none pending = pending
  chosen_name (some r) pending = some (base_of r).profile

  unfoldable pub view : SessionStore → String → ProfileView
  unfolding pending_name chosen_name get_record
  view s id = record {
    profiles = map (λ p. (profile_name p, profile_backend p)) (values settings.profiles);
    selected = or_default (chosen_name (get_record s id) (pending_name s id)) "";
    locked = is_some (get_record s id);
  }

  pub configured : String → Option SandboxProfile → Result SandboxProfile
  configured name none =
      err (failure "the sandbox profile is no longer configured; pick another profile")
  configured name (some p) = ok p

  pub named : Option String → Result SandboxProfile
  unfolding configured
  named none = err (failure "no sandbox profile is configured")
  named (some name) = configured name (get settings.profiles name)

  pub pending : SessionStore → String → Result SandboxProfile
  unfolding named pending_name
  pending s id = named (pending_name s id)

  find_profile : Option String → Option SandboxProfile
  find_profile none = none
  find_profile (some name) = get settings.profiles name

  current : SessionStore → String → Option SandboxProfile
  unfolding find_profile chosen_name pending_name get_record
  current s id = find_profile (chosen_name (get_record s id) (pending_name s id))

  module _ {E : Type 0} (write : E → Option Error × E) where
    unfoldable pub answer :
        String → Result (Unit {0}) × SessionStore × E → Result ProfileView × SessionStore × E
    unfolding view
    answer id (ok _, s, e) = (ok (view s id), s, e)
    answer id (err x, s, e) = (err x, s, e)

    pub choose :
        SessionStore
        → String
        → String
        → E
        → Option SandboxProfile
        → Option SessionRecord
        → Result ProfileView × SessionStore × E
    unfolding answer set_pending_profile
    choose s id name e none r = (err (failure "unknown sandbox profile"), s, e)
    choose s id name e (some p) (some r) =
        (err (failure "this session already has a sandbox"), s, e)
    choose s id name e (some p) none = answer id (set_pending_profile write s id name e)

    unfoldable pub set : SessionStore → String → String → E → Result ProfileView × SessionStore × E
    unfolding choose get_record
    set s id name e = choose s id name e (get settings.profiles name) (get_record s id)
