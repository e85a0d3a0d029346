-- ===== src/McpChoice.antt =====
-- control-plane/src/mcp/mcp-choice.ts: the MCP servers that one session hides. Server names sort by
-- their code points, which is the order of JavaScript's `sort` on the names that the settings allow.
pub mod Edits
pub mod Turns
pub mod Snapshot
use Prim.Native.String.{compare}
use Prim.Native.Nat.{Ordering}
use dsh_yawn.Base.{
  ℕ, ◌+◌, String, Bool, true, false, not, ◌&&◌, ◌||◌, Option, none, some, List, [], ◌∷◌, ◌++◌, map,
  length, keep, every, contains, eqb, ltb, or_default, if◌then◌else◌,
}
use dsh_yawn.Dict.{Dict, get, put, delete}
use dsh_yawn.Exec.{Error, failure, Result, ok, err}
use dsh_yawn.Store.{SessionStore, disabled_mcp_servers, set_disabled_mcp_servers}

-- What the choice reads of a saved server entry.
pub record McpServerEntry : Type 0 where
  pub server_name : String
  pub enabled : Bool
  pub off_by_default : Bool

-- A configured server with its live state.
pub record McpServerView : Type 0 where
  pub server_name : String
  pub enabled : Bool
  pub status : String
  pub tool_count : ℕ
  pub tools : List String

-- A server as the session's page lists it.
pub record SessionMcpServer : Type 0 where
  pub server_name : String
  pub status : String
  pub tool_count : ℕ
  pub tools : List String

pub record McpChoiceView : Type 0 where
  pub servers : List SessionMcpServer
  pub disabled : List String

pub record SessionHiddenServers : Type 0 where
  pub servers : List String
  pub every_server : Bool

-- `changes` counts the notices that `changed` sent.
pub record McpChoice (E : Type 0) : Type 0 where
  pub live : Dict (List String)
  pub store : SessionStore
  pub changes : ℕ
  pub warnings : List String
  pub env : E

-- `[...new Set(names)].sort()`
insert_name : String → List String → List String
insert_name x [] = x ∷ []
insert_name x (y ∷ ys) = elim (compare x y) [
  | Ordering.lt ↦ x ∷ y ∷ ys
  | Ordering.eq ↦ y ∷ ys
  | Ordering.gt ↦ y ∷ insert_name x ys
]

pub sorted_names : List String → List String
unfolding insert_name
sorted_names [] = []
sorted_names (x ∷ xs) = insert_name x (sorted_names xs)

-- Whether two choices name the same servers, order aside.
pub same_servers : List String → List String → Bool
same_servers left right = eqb (length left) (length right) && every (contains left) right

-- The servers a new session starts with turned off.
pub defaults : List McpServerEntry → List String
defaults entries = map (λ s. s.server_name) (keep (λ s. s.enabled && s.off_by_default) entries)

-- The session's own choice, or the configured default for a new one.
pub chosen : List McpServerEntry → SessionStore → String → List String
unfolding disabled_mcp_servers
chosen entries store id = or_default (disabled_mcp_servers store id) (defaults entries)

pub first_unknown : List McpServerEntry → List String → Option String
first_unknown entries [] = none
first_unknown entries (name ∷ names) =
    let rest = first_unknown entries names in
    if contains (map (λ s. s.server_name) entries) name then rest else some name

-- `this.live.get(sessionId) !== undefined && !sameServers(open, chosen)`
was_changed : Option (List String) → List String → Bool
unfolding same_servers
was_changed none now = false
was_changed (some snapshot) now = not (same_servers snapshot now)

module _ (entries : List McpServerEntry) where
  hiding : List String → SessionHiddenServers
  hiding servers = record {
    servers = servers;
    every_server =
        ltb 0 (length servers)
        && every (λ s. not s.enabled || contains servers s.server_name) entries;
  }

module _ {E : Type 0} (entries : List McpServerEntry) where
  view : List McpServerView → McpChoice E → String → McpChoiceView
  unfolding chosen
  view views c id =
      let servers =
        map
          (λ s. record {
            server_name = s.server_name;
            status = s.status;
            tool_count = s.tool_count;
            tools = s.tools;
          })
          (keep (λ s. s.enabled) views) in
      record {
        servers = servers;
        disabled = keep (contains (map (λ s. s.server_name) servers)) (chosen entries c.store id);
      }

  pub hidden : (turn_live : Bool) → McpChoice E → String → SessionHiddenServers
  unfolding hiding chosen
  hidden true c id = hiding entries (or_default (get c.live id) (chosen entries c.store id))
  hidden false c id = hiding entries (chosen entries c.store id)

  unfoldable pub begin_turn : McpChoice E → String → McpChoice E
  unfolding chosen
  begin_turn c id = elim (get c.live id) [
    | some snapshot ↦ c
    | none ↦ record c { live = put c.live id (chosen entries c.store id) }
  ]

  -- Whether the page changed the list while the turns ran, as the last of them finds it.
  unfoldable pub end_turn : (turn_live : Bool) → McpChoice E → String → Bool × McpChoice E
  unfolding was_changed chosen
  end_turn true c id = (false, c)
  end_turn false c id = (
    was_changed (get c.live id) (chosen entries c.store id),
    record c { live = delete c.live id },
  )

  module _ (write : E → Option Error × E) where
    -- The list in memory and the file behind it.
    pub save : McpChoice E → String → List String → Result (Unit {0}) × McpChoice E
    unfolding set_disabled_mcp_servers
    save c id names =
        let (written, store, env) = set_disabled_mcp_servers write c.store id names c.env in
        (written, record c { store = store; env = env })

    -- An open turn keeps the snapshot it started with.
    pub apply_now : (turn_live : Bool) → McpChoice E → String → McpChoice E
    apply_now true c id = c
    apply_now false c id = record c { live = delete c.live id; changes = c.changes + 1 }

    view_after :
        List McpServerView
        → String
        → Result (Unit {0})
        → McpChoice E
        → Result McpChoiceView × McpChoice E
    unfolding view
    view_after views id (ok _) c = (ok (view views c id), c)
    view_after views id (err x) c = (err x, c)

    set_known :
        Bool
        → List McpServerView
        → McpChoice E
        → String
        → List String
        → Option String
        → Result McpChoiceView × McpChoice E
    unfolding save apply_now view_after sorted_names
    set_known turn_live views c id disabled (some name) = (err (failure "unknown MCP server"), c)
    set_known turn_live views c id disabled none =
        let (written, saved) = save c id (sorted_names disabled) in
        view_after views id written (apply_now turn_live saved id)

    unfoldable pub set :
        (turn_live : Bool)
        → List McpServerView
        → McpChoice E
        → String
        → List String
        → Result McpChoiceView × McpChoice E
    unfolding set_known first_unknown
    set turn_live views c id disabled =
        set_known turn_live views c id disabled (first_unknown entries disabled)

    warn_unfrozen : Result (Unit {0}) → McpChoice E → McpChoice E
    warn_unfrozen (ok _) c = c
    warn_unfrozen (err x) c = record c {
      warnings = c.warnings ++ "could not freeze the MCP server choice" ∷ [];
    }

    record_choice : McpChoice E → String → List String → McpChoice E
    unfolding save warn_unfrozen
    record_choice c id names =
        let (written, saved) = save c id names in
        warn_unfrozen written (record saved { changes = saved.changes + 1 })

    -- Record what the session runs with as its own choice, unless it has one.
    pub freeze : McpChoice E → String → ℕ → McpChoice E
    unfolding record_choice disabled_mcp_servers
    freeze c id turn = elim (disabled_mcp_servers c.store id) [
      | some own ↦ c
      | none ↦ record_choice c id (if ltb 1 turn then [] else defaults entries)
    ]
