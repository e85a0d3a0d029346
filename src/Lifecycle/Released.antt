-- ===== src/Lifecycle/Released.antt =====
-- What a release and a suspend leave of the session.
use dsh_yawn.Base.{◌≡◌, String, Bool, true, Option, some, or_default}
use dsh_yawn.Exec.{ok, ◌>>=◌, gets}
use dsh_yawn.Exec.Hoare.{Ensures}
use dsh_yawn.Exec.Outcomes.{Anywhere, Ensures-then, Ensures-answer}
use dsh_yawn.Records.{SessionRecord, base_of}
use dsh_yawn.Store.{get_record}
use dsh_yawn.Registry.{SandboxBackend, find_backend}
use dsh_yawn.World.{World}
use dsh_yawn.Lifecycle.{Deps, forget_session}
use dsh_yawn.Lifecycle.Stopping.{release_owned, release_session}
use dsh_yawn.Lifecycle.Machine.{release_found, release_guarded, release}
use dsh_yawn.Lifecycle.Isolation.{KeyedRecords}
use dsh_yawn.Lifecycle.Forgotten.{Forgotten, forget_session-Forgotten}

module _ {E : Type 0} (d : Deps E) (id : String) where
  Forgotten-at : (j : String) → j ≡ id → Ensures Anywhere (forget_session d j) (λ _. Forgotten id)
  Forgotten-at j e = rw e (forget_session-Forgotten d id)

  pub release_owned-Forgotten :
      (r : SessionRecord) (b : SandboxBackend E)
      → (base_of r).session_id ≡ id
      → Ensures Anywhere (release_owned d r (some b)) (λ _. Forgotten id)
  unfolding release_owned
  release_owned-Forgotten r b own = Ensures-then _ (λ _. Ensures-then _ (λ _. Forgotten-at _ own))

  -- If every stored record names its session, the session's record has a backend in the registry and
  -- the guard does not refuse, a `release` that returns leaves neither a record nor checkpoint files.
  pub release-Forgotten :
      (guard : Option Bool) (w : World E) (r : SessionRecord) (b : SandboxBackend E)
      → KeyedRecords w.store.state.sessions
      → get_record w.store id ≡ some r
      → find_backend d.registry r ≡ some b
      → or_default guard true ≡ true
      → (release d id guard w).0 ≡ ok tt
      → Forgotten id (release d id guard w).1
  unfolding release release_guarded release_found release_session gets ◌>>=◌ KeyedRecords get_record
  release-Forgotten guard w r b keyed found owner agreed =
      rw (found, agreed)
        (rw owner (Ensures-answer (release_owned-Forgotten r b (keyed id r found)) w tt tt))
