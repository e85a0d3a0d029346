-- ===== src/Store/Memory.antt =====
-- What a write of the session store does in memory, whether or not it reaches the disk.
use dsh_yawn.Base.{◌≡◌, refl, String, List, Option}
use dsh_yawn.Dict.{put, delete}
use dsh_yawn.Exec.{Error}
use dsh_yawn.Records.{SessionRecord, base_of}
use dsh_yawn.Store.{SessionStore, persist, set_record, delete_record, set_disabled_mcp_servers}

module _ {E : Type 0} (write : E → Option Error × E) where
  pub set_record-state :
      (s : SessionStore) (r : SessionRecord) (e : E)
      → (set_record write s r e).1.state ≡ record s.state {
        sessions = put s.state.sessions (base_of r).session_id r;
        pending_profiles = delete s.state.pending_profiles (base_of r).session_id;
      }
  unfolding set_record persist
  set_record-state s r e = refl

  pub delete_record-state :
      (s : SessionStore) (id : String) (e : E)
      → (delete_record write s id e).1.state
        ≡ record s.state { sessions = delete s.state.sessions id }
  unfolding delete_record persist
  delete_record-state s id e = refl

  pub set_disabled_mcp_servers-state :
      (s : SessionStore) (id : String) (names : List String) (e : E)
      → (set_disabled_mcp_servers write s id names e).1.state
        ≡ record s.state { disabled_mcp_servers = put s.state.disabled_mcp_servers id names }
  unfolding set_disabled_mcp_servers persist
  set_disabled_mcp_servers-state s id names e = refl
