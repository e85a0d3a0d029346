-- ===== src/RootSession.antt =====
-- control-plane/src/sandbox/manager/root-session.ts: the top-level session whose sandbox serves an
-- agent. The loop runs on fuel; `RootSession.Walk` shows how much is enough.
pub mod Walk
use dsh_yawn.Base.{
  ℕ, String, Bool, true, false, not, ◌&&◌, ◌||◌, Option, none, some, List, [], ◌∷◌, contains, ◌==◌,
  if◌then◌else◌,
}

-- An agent with what the header of its session says.
pub record Agent : Type 0 where
  pub id : String
  pub origin : Option String
  pub parent_session : Option String

unfoldable pub is_subagent : Option String → Bool
is_subagent none = false
is_subagent (some origin) = origin == "subagent"

module _ (agent_lookup : String → Option Agent) where
  abbrev pub found_as : String → Option Agent → Option (String × Agent)
  found_as name none = none
  found_as name (some parent) = some (name, parent)

  -- The parent that the loop goes on with, under the name that it was looked up by.
  pub next_parent : Agent → List String → Option (String × Agent)
  unfolding is_subagent
  next_parent current seen = elim current.parent_session [
    | none ↦ none
    | some name ↦
        if not (is_subagent current.origin) || contains seen name
        then none
        else found_as name (agent_lookup name)
  ]

  pub root_loop : ℕ → Agent → List String → Option String
  unfolding next_parent
  root_loop ℕ.zero current seen = none
  root_loop (ℕ.suc fuel) current seen = elim (next_parent current seen) [
    | none ↦ some current.id
    | some (name, parent) ↦ root_loop fuel parent (name ∷ seen)
  ]

  -- `fuel` bounds the rounds of the source's endless loop.
  pub root_session_id : ℕ → Agent → Option String
  unfolding root_loop
  root_session_id fuel agent = root_loop fuel agent (agent.id ∷ [])
