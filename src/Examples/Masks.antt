-- ===== src/Examples/Masks.antt =====
-- Two agents, one of an excluded preset, and a session that turned one server off.
use dsh_yawn.Base.{
  ◌≡◌, refl, String, true, false, ◌&&◌, none, some, List, [], ◌∷◌, contains, if◌then◌else◌, ◌==◌,
  ◌∙◌,
}
use dsh_yawn.Dict.{get}
use dsh_yawn.McpChoice.{SessionHiddenServers}
use dsh_yawn.ToolExclusion.{
  Host, at_once, later, of_session, hidden_mcp_tool_names, pass, reconcile, dispose,
}
use dsh_yawn.ToolExclusion.Unloaded.{run-dispose}
use dsh_yawn.ToolExclusion.Names.{should_hide, contains-hidden_mcp_tool_names}
use dsh_yawn.ToolExclusion.Settled.{pass-disposed}
use dsh_yawn.ToolExclusion.History.{
  Event, agent_created, tools_live, changed, run, fresh, reconcile-Settled,
}
use dsh_yawn.ToolExclusion.Denied.{Settled}

abbrev wiki_off : SessionHiddenServers
wiki_off = record { servers = "wiki" ∷ []; every_server = false }

abbrev registered : List String
registered = "read" ∷ "mcp__wiki__find" ∷ "mcp__git__log" ∷ "list_mcp_resources" ∷ []

abbrev host : Host
host = record {
  excluded_presets = "minimal" ∷ [];
  preset_for = λ a. if a == "tiny" then some "minimal" else none;
  session_hidden_for = λ a. wiki_off;
  agents = "tiny" ∷ "full" ∷ [];
  tool_names = registered;
  inject = λ a. if a == "tiny" then later else at_once;
  restrict = λ a names. true;
  release = λ a. true;
}

abbrev grown : Host
grown = record host { agents = "new" ∷ host.agents }

contains-hidden_mcp_tool_names_example :
    contains (hidden_mcp_tool_names registered (of_session wiki_off)) "mcp__wiki__find"
    ≡ (contains registered "mcp__wiki__find" && should_hide (of_session wiki_off) "mcp__wiki__find")
contains-hidden_mcp_tool_names_example =
    contains-hidden_mcp_tool_names registered (of_session wiki_off) "mcp__wiki__find"

fresh-open : fresh.disposed ≡ false
unfolding fresh
fresh-open = refl

abbrev before : List Event
before = agent_created host "tiny" ∷ changed host [] ∷ tools_live host "tiny" ∷ []

reconcile-Settled_example :
    Settled grown "new" (get (reconcile host (grown ∷ []) (run before fresh)).policies "new")
reconcile-Settled_example = reconcile-Settled before host (grown ∷ []) "new" (refl, tt) refl

run-dispose_example : get (run before (dispose host (pass host fresh))).policies "full" ≡ none
run-dispose_example =
    run-dispose before host (pass host fresh) "full" (pass-disposed host fresh ∙ fresh-open)
