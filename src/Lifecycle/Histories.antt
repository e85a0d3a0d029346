-- ===== src/Lifecycle/Histories.antt =====
-- Any order of the sessions' verbs: what each session keeps while the others are served.
use dsh_yawn.Base.{◌≡◌, refl, String, Bool, Option, List, [], ◌∷◌, All, ◌∙◌}
use dsh_yawn.Exec.{Result}
use dsh_yawn.World.{World}
use dsh_yawn.Lifecycle.{Deps}
use dsh_yawn.Lifecycle.Machine.{ensure_running, hibernate, release}
use dsh_yawn.Lifecycle.Frame.Verbs.{Keeps-ensure_running, Keeps-hibernate, Keeps-release}
use dsh_yawn.Lifecycle.Isolation.{KeyedRecords, holding, Apart, Apart-IsLocal}

-- One verb, whatever it returns or throws: the records stay keyed and the other sessions keep theirs.
pub data Verb (E : Type 0) : Type 0 where
  ensuring : (E → Result String × E) → Verb E
  hibernating : Option Bool → Verb E
  releasing : Option Bool → Verb E

module _ {E : Type 0} (d : Deps E) where
  unfoldable pub perform : World E → String → Verb E → World E
  unfolding ensure_running hibernate release
  perform w id (ensuring repository) = (ensure_running d id repository w).1
  perform w id (hibernating guard) = (hibernate d id guard w).1
  perform w id (releasing guard) = (release d id guard w).1

  -- A history: the sessions' verbs in the order in which they ran.
  unfoldable pub perform_all : World E → List (String × Verb E) → World E
  unfolding perform
  perform_all w [] = w
  perform_all w ((id, v) ∷ calls) = perform_all (perform w id v) calls

  pub perform-Apart :
      (w : World E) (id : String) (v : Verb E)
      → KeyedRecords w.store.state.sessions
      → Apart w id (perform w id v)
  unfolding perform
  perform-Apart w id v keyed = by_verb v
    where
      self : Apart w id w
      self = record { keyed = keyed; others = λ j ne. refl }

      by_verb : (v : Verb E) → Apart w id (perform w id v)
      by_verb (ensuring repository) =
          (Keeps-ensure_running (Apart-IsLocal w id d) repository).keeps w self
      by_verb (hibernating guard) = (Keeps-hibernate (Apart-IsLocal w id d) guard).keeps w self
      by_verb (releasing guard) = (Keeps-release (Apart-IsLocal w id d) guard).keeps w self

  -- If every stored record names the session it is stored for, a history of `ensureRunning`,
  -- `hibernate` and `release` calls of other sessions, those that throw included, leaves a session's
  -- record, pending profile, checkpoint files and cached runner as they were.
  pub perform_all-holding :
      (w : World E) (calls : List (String × Verb E)) (j : String)
      → KeyedRecords w.store.state.sessions
      → All (λ c. ¬ (c.0 ≡ j)) calls
      → holding (perform_all w calls) j ≡ holding w j
  unfolding perform_all
  perform_all-holding w [] j keyed apart = refl
  perform_all-holding w ((id, v) ∷ calls) j keyed (ne, apart) =
      let p = perform-Apart w id v keyed in
      perform_all-holding (perform w id v) calls j p.keyed apart ∙ p.others j ne
