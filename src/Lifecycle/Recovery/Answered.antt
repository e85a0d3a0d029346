-- ===== src/Lifecycle/Recovery/Answered.antt =====
-- A release returns as long as the calls it makes are answered.
use dsh_yawn.Base.{
  ℕ, ◌≡◌, String, Option, none, some, List, [], ◌∷◌, All, inl, inr, arith, Option-cases,
}
use dsh_yawn.Dict.{delete}
use dsh_yawn.Exec.{Error, Result, ok, Exec, on_not_found, pure}
use dsh_yawn.Exec.Returns.{
  IsOk, IsOkOrGone, Returns, Returns-pure, Returns-gets, Returns-bind, Returns-both,
  Returns-on_not_found,
}
use dsh_yawn.Records.{Reference, SessionRecord, running, hibernated, checkpointed}
use dsh_yawn.Store.{SessionStore, delete_record, persist, and_then, written_file, file_after}
use dsh_yawn.Registry.{SandboxBackend, find_backend}
use dsh_yawn.World.{World, outside, outside_silent, on_store, warn, evict, written, change_files}
use dsh_yawn.Attachment.{drop}
use dsh_yawn.Lifecycle.{
  Hooks, Deps, store_delete, applied, call_hook, call_hooks, remove_files, forget_session,
}
use dsh_yawn.Lifecycle.Stopping.{destroy_released, release_owned, release_session}
use dsh_yawn.Lifecycle.Machine.{release_found, react_release}

-- The backend destroys a sandbox and takes a deadline, or says that the sandbox is gone.
pub record IsAnswering {E : Type 0} (b : SandboxBackend E) : Type 0 where
  pub destroyed : (ref : Reference) (e : E) → IsOkOrGone (b.destroy ref e).0
  pub expiring :
      (ref : Reference) (deadline : ℕ) (e : E) → IsOkOrGone (b.expire_at ref deadline e).0

-- The hook of one feature, if it has one, does not throw.
abbrev IsQuiet : {E : Type 0} → Option (String → E → Result (Unit {0}) × E) → Type 0
IsQuiet none = Unit
IsQuiet {E} (some f) = (id : String) (e : E) → IsOk (f id e).0

-- No write fails, no configured backend is out of reach and no `afterRelease` hook throws.
pub record IsServed {E : Type 0} (d : Deps E) : Type 0 where
  pub writes : (e : E) → (d.host.write e).0 ≡ none
  pub files : (e : E) → (d.host.write_file e).0 ≡ none
  pub backends :
      (r : SessionRecord) (b : SandboxBackend E)
      → find_backend d.registry r ≡ some b
      → IsAnswering b
  pub hooked : All (λ x. IsQuiet x.after_release) d.hooks

-- No write of the store has failed.
abbrev pub Whole : {E : Type 0} → World E → Type 0
Whole w = w.store.write_chain ≡ ok tt

module _ {E : Type 0} (d : Deps E) (served : IsServed d) where
  silent : (f : E → E) → Returns Whole (outside_silent f)
  unfolding outside_silent
  silent f = record { returns = λ w p. (tt, p) }

  pub warned : (m : String) → Returns (Whole {E = E}) (warn m)
  unfolding warn
  warned m = record { returns = λ w p. (tt, p) }

  evicted : (id : String) → Returns (Whole {E = E}) (evict id)
  unfolding evict
  evicted id = record { returns = λ w p. (tt, p) }

  pub gone_or :
      (f : E → Result (Unit {0}) × E) {n : Exec (World E) (Unit {0})}
      → ((e : E) → IsOkOrGone (f e).0)
      → Returns Whole n
      → Returns Whole (on_not_found (outside f) n)
  unfolding outside
  gone_or f answers k = Returns-on_not_found (outside f) (λ w p. (answers w.env, p)) k

  persisted :
      (s : SessionStore) (e : E)
      → s.write_chain ≡ ok tt
      → IsOk (persist d.host.write s e).0 × ((persist d.host.write s e).1.write_chain ≡ ok tt)
  unfolding persist and_then written_file file_after
  persisted s e p = ground (arith, served.writes e, p)

  deleted : (id : String) → Returns Whole (store_delete d id)
  unfolding store_delete on_store delete_record
  deleted id = record {
    returns = λ w p.
        persisted
          (record w.store {
            state = record w.store.state { sessions = delete w.store.state.sessions id };
          })
          w.env p;
  }

  wrote :
      (w w' : World E) (o : Option Error × E)
      → o.0 ≡ none
      → Whole w'
      → IsOk (written w o w').0 × Whole (written w o w').1
  unfolding written
  wrote w w' (none, e) quiet p = (tt, p)
  wrote w w' (some x, e) quiet p = ground (arith, quiet)

  removed : (id : String) → Returns Whole (remove_files d id)
  unfolding remove_files change_files
  removed id =
      Returns-both
        (record { returns = λ w p. wrote w _ (d.host.write_file w.env) (served.files w.env) p })
        (record { returns = λ w p. wrote w _ (d.host.write_file w.env) (served.files w.env) p })

  hooks_called :
      (id : String) (xs : List (Hooks E))
      → All (λ x. IsQuiet x.after_release) xs
      → Returns Whole (call_hooks d (λ x. applied d (λ f. f id) x.after_release) xs)
  unfolding call_hooks call_hook outside applied pure
  hooks_called id [] quiet = Returns-pure tt
  hooks_called id (x ∷ xs) (q, quiet) =
      Returns-bind (called x.after_release q) (λ _. hooks_called id xs quiet)
    where
      called :
          (o : Option (String → E → Result (Unit {0}) × E))
          → IsQuiet o
          → Returns Whole (call_hook d (applied d (λ f. f id) o))
      called none q = Returns-pure tt
      called (some f) q = record { returns = λ w p. (q id w.env, p) }

  forgotten : (id : String) → Returns Whole (forget_session d id)
  unfolding forget_session
  forgotten id =
      Returns-bind (deleted id)
        (λ _. Returns-bind (removed id) (λ _. hooks_called id _ served.hooked))

  destroyed :
      (r : SessionRecord) (b : SandboxBackend E)
      → IsAnswering b
      → Returns Whole (destroy_released d b r)
  unfolding destroy_released drop
  destroyed (running r) b a =
      Returns-bind (gone_or _ (a.destroyed r.reference) (Returns-pure tt)) (λ _. silent _)
  destroyed (hibernated r deadline) b a =
      Returns-bind (gone_or _ (a.destroyed r.reference) (Returns-pure tt)) (λ _. silent _)
  destroyed (checkpointed c s deadline) b a = Returns-pure tt

  released : (o : Option SessionRecord) → Returns Whole (release_found d o)
  unfolding release_found release_session release_owned
  released none = Returns-pure tt
  released (some r) = elim (Option-cases (find_backend d.registry r)) [
    | inl e ↦ rw e (warned _)
    | inr (b, e) ↦ rw e (
        Returns-bind (evicted _)
          (λ _. Returns-bind (destroyed r b (served.backends r b e)) (λ _. forgotten _)))
  ]

  pub reacted : (id : String) → Returns Whole (react_release d id)
  unfolding react_release
  reacted id = Returns-bind (Returns-gets _) released
