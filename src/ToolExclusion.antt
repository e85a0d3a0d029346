-- ===== src/ToolExclusion.antt =====
-- control-plane/src/mcp/mcp-tool-exclusion.ts: the MCP tools that are hidden from agents, those of
-- an excluded preset and those whose session turned servers off. An agent is its id. What the agent
-- host answers (presets, live agents, registered tools, whether it grants a mask) is a parameter.
pub mod Names
pub mod Steps
pub mod Settled
pub mod Denied
pub mod History
pub mod Unloaded
use Prim.Native.Nat.{Ordering}
use Prim.Native.String.{compare}
use dsh_yawn.Base.{
  ℕ, String, Bool, true, false, not, ◌&&◌, ◌||◌, Option, none, some, List, [], ◌∷◌, ◌++◌, keep, any,
  is_some, contains, if◌then◌else◌, ◌==◌,
}
use dsh_yawn.Dict.{Dict, get, put, delete, has, keys}
use dsh_yawn.Codes.{codes, strip_prefix, same}
use dsh_yawn.McpChoice.{SessionHiddenServers}

abbrev pub mcp_resource_tool_names : List String
mcp_resource_tool_names =
    "list_mcp_resources" ∷ "list_mcp_resource_templates" ∷ "read_mcp_resource" ∷ []

pub is_mcp_tool_name : String → Bool
is_mcp_tool_name name =
    is_some (strip_prefix (codes "mcp__") (codes name)) || contains mcp_resource_tool_names name

-- `toolName.startsWith(`mcp__${serverName}__`)`
pub is_tool_of_server : String → String → Bool
is_tool_of_server tool server =
    is_some (strip_prefix (codes "mcp__" ++ codes server ++ codes "__") (codes tool))

-- `names.sort()`
pub insert_text : String → List String → List String
insert_text x [] = x ∷ []
insert_text x (y ∷ ys) = elim (compare x y) [ Ordering.gt ↦ y ∷ insert_text x ys | _ ↦ x ∷ y ∷ ys ]

pub sort : List String → List String
unfolding insert_text
sort [] = []
sort (x ∷ xs) = insert_text x (sort xs)

pub mcp_tool_names : List String → List String
unfolding is_mcp_tool_name
mcp_tool_names names = sort (keep is_mcp_tool_name names)

-- The servers that an agent must not see: all of them, or those of its session.
pub data HiddenServers : Type 0 where
  all : HiddenServers
  of_session : SessionHiddenServers → HiddenServers

pub hides_tool : SessionHiddenServers → String → Bool
unfolding is_tool_of_server
hides_tool hidden name =
    if contains mcp_resource_tool_names name
    then hidden.every_server
    else any (is_tool_of_server name) hidden.servers

pub hidden_mcp_tool_names : List String → HiddenServers → List String
unfolding mcp_tool_names hides_tool
hidden_mcp_tool_names names all = mcp_tool_names names
hidden_mcp_tool_names names (of_session hidden) = keep (hides_tool hidden) (mcp_tool_names names)

-- What comes of a watch on an agent's tools: it throws, it runs the callback before it returns, or
-- the callback comes later.
pub data Watch : Type 0 where
  refused : Watch
  at_once : Watch
  later : Watch

pub record Host : Type 0 where
  pub excluded_presets : List String
  pub preset_for : String → Option String
  pub session_hidden_for : String → SessionHiddenServers
  pub agents : List String
  pub tool_names : List String
  pub inject : String → Watch
  pub restrict : String → List String → Bool
  pub release : String → Bool

-- One agent's live mask: `live` once the agent's tools are there, and `restriction` the mask in
-- force, by the names it denies.
pub record AgentPolicy : Type 0 where
  pub live : Bool
  pub restriction : Option (List String)
  pub names : Option (List String)

pub data Warning : Type 0 where
  not_hidden : String → Warning
  not_watched : String → Warning
  not_released : String → Warning

pub record ToolExclusion : Type 0 where
  pub policies : Dict AgentPolicy
  pub disposed : Bool
  pub warnings : List Warning

excluded_preset : Host → String → Bool
excluded_preset h agent = elim (h.preset_for agent) [
  | none ↦ false
  | some preset ↦ contains h.excluded_presets preset
]

session_servers : SessionHiddenServers → Option HiddenServers
session_servers hidden = elim hidden.servers [ [] ↦ none | x ∷ xs ↦ some (of_session hidden) ]

pub hidden_servers : Host → String → Option HiddenServers
unfolding excluded_preset session_servers
hidden_servers h agent =
    if excluded_preset h agent then some all else session_servers (h.session_hidden_for agent)

pub hidden_names : Host → String → List String
unfolding hidden_servers hidden_mcp_tool_names
hidden_names h agent = elim (hidden_servers h agent) [
  | none ↦ []
  | some hidden ↦ hidden_mcp_tool_names h.tool_names hidden
]

-- `sameNames(policy.names, names)`
pub same_list : List String → List String → Bool
same_list [] [] = true
same_list [] (y ∷ ys) = false
same_list (x ∷ xs) [] = false
same_list (x ∷ xs) (y ∷ ys) = x == y && same_list xs ys

pub same_names : Option (List String) → List String → Bool
unfolding same_list
same_names none names = false
same_names (some left) names = same_list left names

-- What `policy.update(names)` makes of the policy; none where `restrict` throws.
pub masked : Host → String → List String → AgentPolicy → Option AgentPolicy
masked h agent [] p = some (record p { restriction = none; names = some [] })
masked h agent (x ∷ xs) p =
    if h.restrict agent (x ∷ xs)
    then some (record p { restriction = some (x ∷ xs); names = some (x ∷ xs) })
    else none

settle_mask : String → Option AgentPolicy → ToolExclusion → ToolExclusion
settle_mask agent (some p) s = record s { policies = put s.policies agent p }
settle_mask agent none s = record s { warnings = s.warnings ++ not_hidden agent ∷ [] }

unfoldable pub update : Host → String → AgentPolicy → List String → ToolExclusion → ToolExclusion
unfolding same_names masked settle_mask
update h agent p names s =
    if same_names p.names names then s else settle_mask agent (masked h agent names p) s

-- The agent's tools are there: the callback of the watch.
pub scope_live : Host → String → ToolExclusion → ToolExclusion
unfolding update hidden_names
scope_live h agent s = elim (get s.policies agent) [
  | none ↦ s
  | some p ↦
      let live = record p { live = true } in
      update h agent live (hidden_names h agent) (record s { policies = put s.policies agent live })
]

pub fresh_policy : AgentPolicy
fresh_policy = record { live = false; restriction = none; names = none }

pub watched : Host → String → Watch → ToolExclusion → ToolExclusion
unfolding scope_live
watched h agent at_once s = scope_live h agent s
watched h agent later s = s
watched h agent refused s = record s {
  policies = delete s.policies agent;
  warnings = s.warnings ++ not_watched agent ∷ [];
}

pub install : Host → String → ToolExclusion → ToolExclusion
unfolding hidden_servers watched fresh_policy
install h agent s =
    if s.disposed || has s.policies agent || not (is_some (hidden_servers h agent))
    then s
    else watched h agent (h.inject agent)
        (record s { policies = put s.policies agent fresh_policy })

-- Releasing the watch lifts the mask with it.
pub remove : Host → String → ToolExclusion → ToolExclusion
remove h agent s = elim (get s.policies agent) [
  | none ↦ s
  | some p ↦
      let gone = delete s.policies agent in
      if h.release agent
      then record s { policies = gone }
      else record s { policies = gone; warnings = s.warnings ++ not_released agent ∷ [] }
]

pub sync : Host → String → ToolExclusion → ToolExclusion
unfolding hidden_servers install remove
sync h agent s =
    if s.disposed
    then s
    else if is_some (hidden_servers h agent)
    then install h agent s
    else remove h agent s

-- `policy.update?.(this.hiddenNames(agent, toolNames()))`
pub update_live : Host → String → ToolExclusion → ToolExclusion
unfolding update hidden_names
update_live h agent s = elim (get s.policies agent) [
  | none ↦ s
  | some p ↦ if p.live then update h agent p (hidden_names h agent) s else s
]

pub for_each :
    (String → ToolExclusion → ToolExclusion) → List String → ToolExclusion → ToolExclusion
for_each f [] s = s
for_each f (agent ∷ agents) s = for_each f agents (f agent s)

pub update_all : Host → ToolExclusion → ToolExclusion
unfolding for_each update_live
update_all h s = for_each (update_live h) (keys s.policies) s

pub pass : Host → ToolExclusion → ToolExclusion
unfolding for_each sync update_all
pass h s = update_all h (for_each (sync h) h.agents s)

-- Every further host is what a change that came in during the pass before left; the registered
-- names are read once, for the first pass.
pub passes : Host → List Host → ToolExclusion → ToolExclusion
unfolding pass
passes h [] s = pass h s
passes h (next ∷ rest) s = passes (record next { tool_names = h.tool_names }) rest (pass h s)

unfoldable pub reconcile : Host → List Host → ToolExclusion → ToolExclusion
unfolding passes
reconcile h changes s = if s.disposed then s else passes h changes s

unfoldable pub dispose : Host → ToolExclusion → ToolExclusion
unfolding for_each remove
dispose h s =
    if s.disposed then s else for_each (remove h) (keys s.policies) (record s { disposed = true })
