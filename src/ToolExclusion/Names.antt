-- ===== src/ToolExclusion/Names.antt =====
-- Which tool names are hidden.
use dsh_yawn.Base.{
  ◌≡◌, refl, String, Bool, ◌&&◌, ◌||◌, List, [], ◌∷◌, keep, any, contains, if◌then◌else◌, arith,
  ◌==◌, eq_iff, inl, inr, Bool-cases,
}
use dsh_yawn.ToolExclusion.{
  is_mcp_tool_name, is_tool_of_server, insert_text, sort, mcp_tool_names, mcp_resource_tool_names,
  HiddenServers, all, of_session, hides_tool, hidden_mcp_tool_names,
}

contains-keep :
    (p : String → Bool) (xs : List String) (x : String)
    → contains (keep p xs) x ≡ (contains xs x && p x)
contains-keep p [] x = refl
contains-keep p (y ∷ ys) x = elim (Bool-cases (y == x)) [
  | inl same ↦ ground (arith, (eq_iff y x).0 same, contains-keep p ys x)
  | inr other ↦ ground (arith, contains-keep p ys x)
]

contains-insert_text :
    (y : String) (xs : List String) (x : String)
    → contains (insert_text y xs) x ≡ (y == x || contains xs x)
unfolding insert_text
contains-insert_text y [] x = refl
contains-insert_text y (z ∷ zs) x = ground (arith, contains-insert_text y zs x)

contains-sort : (xs : List String) (x : String) → contains (sort xs) x ≡ contains xs x
unfolding sort
contains-sort [] x = refl
contains-sort (y ∷ ys) x = ground (arith, contains-insert_text y (sort ys) x, contains-sort ys x)

contains-mcp_tool_names :
    (names : List String) (x : String)
    → contains (mcp_tool_names names) x ≡ (contains names x && is_mcp_tool_name x)
unfolding mcp_tool_names
contains-mcp_tool_names names x =
    ground
      (arith, contains-sort (keep is_mcp_tool_name names) x, contains-keep is_mcp_tool_name names x)

-- What must be hidden of one tool, without the list it stands in.
abbrev pub should_hide : HiddenServers → String → Bool
should_hide all x = is_mcp_tool_name x
should_hide (of_session hidden) x =
    is_mcp_tool_name x
    && (if contains mcp_resource_tool_names x
        then hidden.every_server
        else any (is_tool_of_server x) hidden.servers)

-- A registered name is hidden if and only if it is an MCP name that should be: any of them under an
-- excluded preset; otherwise a tool of a server that the session turned off, or a shared resource
-- tool once every server is off. No other name is hidden, and none that is not registered.
pub contains-hidden_mcp_tool_names :
    (names : List String) (hidden : HiddenServers) (x : String)
    → contains (hidden_mcp_tool_names names hidden) x ≡ (contains names x && should_hide hidden x)
unfolding hidden_mcp_tool_names hides_tool
contains-hidden_mcp_tool_names names all x = contains-mcp_tool_names names x
contains-hidden_mcp_tool_names names (of_session hidden) x = ground (
  arith,
  contains-keep (hides_tool hidden) (mcp_tool_names names) x,
  contains-mcp_tool_names names x,
)
