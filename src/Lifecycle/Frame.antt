-- ===== src/Lifecycle/Frame.antt =====
-- A condition that one session's own transactions keep, all three verbs on that session keep, whatever they
-- return or throw. `IsLocal` lists those writes; the verbs act on the record that the store holds for
-- the session, so the condition has to say that the record names it.
pub mod Starting
pub mod Stopping
pub mod Verbs
pub mod Writes
use dsh_yawn.Base.{
  ℕ, ◌≡◌, refl, sym, String, Bool, true, false, Option, none, some, List, [], ◌∷◌, if◌then◌else◌,
}
use dsh_yawn.Dict.{put, delete}
use dsh_yawn.Exec.{Error, Result, Exec, pure, raise, gets, ◌>>=◌, catch, on_not_found}
use dsh_yawn.Exec.Hoare.{
  Keeps, keeps_rules, Keeps-pure, Keeps-raise, Keeps-gets, Keeps-bind, Keeps-catch, Keeps-if,
  Keeps-on_not_found, Keeps-bind_fact, Ensures, Ensures-pure, Ensures-gets, Ensures-after,
}
use dsh_yawn.Records.{
  Bytes, RecordBase, RunningRecord, SessionRecord, running, hibernated, checkpointed, Checkpoint,
  SandboxProfile, base_of,
}
use dsh_yawn.Store.{get_record}
use dsh_yawn.Registry.{SandboxBackend}
use dsh_yawn.Checkpoint.{SavedCheckpoint}
use dsh_yawn.World.{Client, Host, World, evict, change_files}
use dsh_yawn.World.Rules.{
  IsInner, Keeps-outside, Keeps-outside_silent, Keeps-warn, Keeps-evict, Keeps-both,
}
use dsh_yawn.Attachment.{client_for, detach, drop, reuse_cached, attach, connect, checkpoint}
use dsh_yawn.Attachment.Keeping.{
  Keeps-drop, Keeps-reuse_cached, Keeps-attach, Keeps-connect, Keeps-checkpoint, Keeps-detach,
}
use dsh_yawn.Lifecycle.{
  Hooks, Deps, store_set, store_delete, call_hook, call_hooks, applied, save_files, remove_files,
  forget_session,
}
use dsh_yawn.Lifecycle.Stopping.{commit_checkpoint}
use dsh_yawn.Lifecycle.Starting.{finish_restore}
use dsh_yawn.World.{outside}

-- A record whose work is not in the checkpoint files alone.
abbrev pub HasSandbox : SessionRecord → Type 0
HasSandbox (running r) = Unit
HasSandbox (hibernated r deadline) = Unit
HasSandbox (checkpointed b saved deadline) = ⊥

module _ {E : Type 0} (d : Deps E) (P : World E → Type 0) (id : String) where
  -- The transactions in which a verb changes the store and the checkpoint files.
  pub record IsLocal : Type 0 where
    pub inner : IsInner P id
    pub owned :
        (w : World E) (r : SessionRecord)
        → P w
        → get_record w.store id ≡ some r
        → (base_of r).session_id ≡ id
    pub set :
        (r : SessionRecord) → (base_of r).session_id ≡ id → HasSandbox r → Keeps P (store_set d r)
    pub forget : Keeps P (forget_session d id)
    pub commit :
        (r : RunningRecord) (b : SandboxBackend E) (time : ℕ) (saved : SavedCheckpoint)
        → r.base.session_id ≡ id
        → Keeps P (commit_checkpoint d r b time saved)
    pub finish :
        (r : RunningRecord) (saved : Checkpoint) (c : Client)
        → r.base.session_id ≡ id
        → Keeps P (finish_restore d id r saved c)

module _ {E : Type 0} {P : World E → Type 0} {id : String} (inner : IsInner P id) where
  pub Keeps-call_hooks :
      (d : Deps E) (pick : Hooks E → Option (E → Result (Unit {0}) × E)) (xs : List (Hooks E))
      → Keeps P (call_hooks d pick xs)
  unfolding call_hooks
  Keeps-call_hooks d pick [] = Keeps-pure tt
  Keeps-call_hooks d pick (x ∷ xs) = Keeps-bind (called (pick x)) (λ _. Keeps-call_hooks d pick xs)
    where
      called : (o : Option (E → Result (Unit {0}) × E)) → Keeps P (call_hook d o)
      called none = Keeps-pure tt
      called (some f) = Keeps-outside inner f

  pub Keeps-destroy_gone :
      (f : E → Result (Unit {0}) × E) → Keeps P (on_not_found (outside f) (pure tt))
  Keeps-destroy_gone f = Keeps-on_not_found (Keeps-outside inner f) (Keeps-pure tt)
