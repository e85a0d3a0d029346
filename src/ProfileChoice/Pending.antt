-- ===== src/ProfileChoice/Pending.antt =====
-- A profile that was picked is the one that the session's first sandbox gets.
use dsh_yawn.Base.{◌≡◌, String, false, Option, none, some, arith}
use dsh_yawn.Dict.{get, get-put_self}
use dsh_yawn.Exec.{Error, ok}
use dsh_yawn.Records.{SandboxProfile}
use dsh_yawn.Store.{
  SessionStore, get_record, pending_profile, set_pending_profile, persist, and_then, written_file,
  file_after,
}
use dsh_yawn.ProfileChoice.{
  Settings, ProfileView, pending_name, chosen_name, view, configured, named, pending, answer,
  choose, set,
}

module _ {E : Type 0} (settings : Settings) (write : E → Option Error × E) where
  -- If the name is configured as `p` and `set` answers, the session has no record, the answered view
  -- selects the name unlocked, and `p` is what the session would now be provisioned with.
  pub set-pending :
      (s : SessionStore) (id name : String) (e : E) (v : ProfileView) (p : SandboxProfile)
      → get settings.profiles name ≡ some p
      → (set settings write s id name e).0 ≡ ok v
      → (get_record s id ≡ none)
        × (v.selected ≡ name)
        × (v.locked ≡ false)
        × (pending settings (set settings write s id name e).1 id ≡ ok p)
  unfolding set choose answer view pending named configured pending_name chosen_name get_record
      pending_profile set_pending_profile persist and_then written_file file_after
  set-pending s id name e v p known h =
      ground (arith, get-put_self s.state.pending_profiles id name)
