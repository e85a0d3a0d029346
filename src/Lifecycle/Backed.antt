-- ===== src/Lifecycle/Backed.antt =====
-- A checkpointed record has its bundle on the host's disk, whatever fails on the way: the files are
-- written before the record says checkpointed, and removed after it has stopped saying so.
pub mod Files
pub mod Steps
pub mod Always
use dsh_yawn.Base.{ℕ, ◌≡◌, refl, sym, String, Option, none, some, List, [], ◌∷◌}
use dsh_yawn.Dict.{Dict, get, put, delete, get-put_self, get-delete_self}
use dsh_yawn.Exec.{Error, Result, Exec, pure, ◌>>=◌}
use dsh_yawn.Exec.Hoare.{
  Keeps, Ensures, OnOk, Keeps-pure, Keeps-gets, Keeps-bind, Keeps→Ensures, Ensures-bind,
}
use dsh_yawn.Exec.Leaves.{
  Leaves, Leaves-Keeps, Keeps-Leaves, Leaves-bind_always, Leaves-bind_ensured, Keeps-and,
}
use dsh_yawn.Records.{
  Bytes, RunningRecord, SessionRecord, running, hibernated, checkpointed, Checkpoint, base_of,
}
use dsh_yawn.Registry.{SandboxBackend}
use dsh_yawn.Store.Memory.{set_record-state, delete_record-state}
use dsh_yawn.Checkpoint.{SavedCheckpoint}
use dsh_yawn.World.{Client, Host, World, on_store, change_files, written}
use dsh_yawn.World.Rules.{IsInner, Keeps-both}
use dsh_yawn.Lifecycle.{
  Hooks, Deps, store_set, store_delete, call_hooks, save_files, remove_files, forget_session,
}
use dsh_yawn.Lifecycle.Stopping.{commit_checkpoint}
use dsh_yawn.Lifecycle.Starting.{finish_restore}
use dsh_yawn.Lifecycle.Frame.{IsLocal, HasSandbox, Keeps-call_hooks, Keeps-destroy_gone}

-- The bundle that a record needs is there.
abbrev pub Covers : Option SessionRecord → Option Bytes → Type 0
Covers none bundle = Unit
Covers (some (running r)) bundle = Unit
Covers (some (hibernated r deadline)) bundle = Unit
Covers (some (checkpointed b saved deadline)) none = ⊥
Covers (some (checkpointed b saved deadline)) (some bundle) = Unit

-- No bundle is needed.
abbrev pub Needless : Option SessionRecord → Type 0
Needless none = Unit
Needless (some r) = HasSandbox r

Needless-Covers : (r : Option SessionRecord) (b : Option Bytes) → Needless r → Covers r b
Needless-Covers none b n = tt
Needless-Covers (some (running r)) b n = tt
Needless-Covers (some (hibernated r deadline)) b n = tt
Needless-Covers (some (checkpointed r saved deadline)) b n = elim n [ ]

Covers-some : (r : Option SessionRecord) (b : Bytes) → Covers r (some b)
Covers-some none b = tt
Covers-some (some (running r)) b = tt
Covers-some (some (hibernated r deadline)) b = tt
Covers-some (some (checkpointed r saved deadline)) b = tt

module _ {E : Type 0} (id : String) where
  pub record Backed (w : World E) : Type 0 where
    pub covers : Covers (get w.store.state.sessions id) (get w.bundles id)

  pub record Light (w : World E) : Type 0 where
    pub needless : Needless (get w.store.state.sessions id)

  pub record Stocked (w : World E) : Type 0 where
    pub bundle : Bytes
    pub is_saved : get w.bundles id ≡ some bundle

  pub Light-Backed : (w : World E) → Light w → Backed w
  Light-Backed w l = record { covers = Needless-Covers _ _ l.needless }

  pub Stocked-Backed : (w : World E) → Stocked w → Backed w
  Stocked-Backed w p = record { covers = rw p.is_saved (Covers-some _ p.bundle) }

  pub Backed-inner : IsInner Backed id
  Backed-inner = record {
    env_free = λ w e p. record { covers = p.covers };
    warnings_free = λ w m p. record { covers = p.covers };
    cached = λ w c p. record { covers = p.covers };
    evicted = λ w p. record { covers = p.covers };
  }

  pub Stocked-inner : IsInner Stocked id
  Stocked-inner = record {
    env_free = λ w e p. record { bundle = p.bundle; is_saved = p.is_saved };
    warnings_free = λ w m p. record { bundle = p.bundle; is_saved = p.is_saved };
    cached = λ w c p. record { bundle = p.bundle; is_saved = p.is_saved };
    evicted = λ w p. record { bundle = p.bundle; is_saved = p.is_saved };
  }

  pub Light-inner : IsInner Light id
  Light-inner = record {
    env_free = λ w e p. record { needless = p.needless };
    warnings_free = λ w m p. record { needless = p.needless };
    cached = λ w c p. record { needless = p.needless };
    evicted = λ w p. record { needless = p.needless };
  }
