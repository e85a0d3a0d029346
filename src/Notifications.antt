-- ===== src/Notifications.antt =====
-- control-plane/src/client/notifications/notifications.ts: the watcher of the session list that
-- reports the turns that end, and when a report is shown.
pub mod Edges
use dsh_yawn.Base.{
  String, Bool, true, false, not, ◌&&◌, ◌||◌, Option, none, some, List, [], ◌∷◌, ◌++◌, map, keep,
  contains, ◌==◌, if◌then◌else◌,
}
use dsh_yawn.Dict.{Dict, get, put}

pub record SessionSummary : Type 0 where
  pub id : String
  pub origin : Option String
  pub running : Bool
  pub display_title : String

-- A snapshot of the session list feed.
pub record SessionListState : Type 0 where
  pub ids : List String
  pub by_id : Dict SessionSummary

unfoldable pub is_subagent : SessionSummary → Bool
is_subagent s = elim s.origin [ none ↦ false | some origin ↦ origin == "subagent" ]

-- The summary that the loop goes on with.
unfoldable pub top_level : SessionListState → String → Option SessionSummary
unfolding is_subagent
top_level state id = elim (get state.by_id id) [
  | none ↦ none
  | some summary ↦ if is_subagent summary then none else some summary
]

-- `previous === true && !summary.running`
unfoldable pub has_ended : Option Bool → SessionSummary → Bool
has_ended none summary = false
has_ended (some previous) summary = previous && not summary.running

-- One round of the loop over the ids: the running bits so far, and what was reported.
unfoldable pub observe :
    Dict Bool → String → Option SessionSummary → Dict Bool × List SessionSummary
unfolding has_ended
observe running id none = (running, [])
observe running id (some summary) = (
  put running id summary.running,
  if has_ended (get running id) summary then summary ∷ [] else [],
)

unfoldable pub scan : SessionListState → List String → Dict Bool → Dict Bool × List SessionSummary
unfolding observe
scan state [] running = (running, [])
scan state (id ∷ ids) running =
    let (running', now) = observe running id (top_level state id) in
    let (running'', later) = scan state ids running' in (running'', now ++ later)

-- The ids that the loop has seen.
unfoldable pub is_seen : SessionListState → String → Bool
is_seen state id =
    contains state.ids id && elim (top_level state id) [ none ↦ false | some _ ↦ true ]

unfoldable pub inspect : SessionListState → Dict Bool → Dict Bool × List SessionSummary
inspect state running =
    let (scanned, ended) = scan state state.ids running in
    (keep (λ e. is_seen state e.0) scanned, ended)

-- Every further snapshot of the feed.
unfoldable pub watch : List SessionListState → Dict Bool → List SessionSummary
unfolding inspect
watch [] running = []
watch (state ∷ states) running =
    let (running', ended) = inspect state running in ended ++ watch states running'

-- The first inspection only records.
unfoldable pub watch_turn_ends : SessionListState → List SessionListState → List SessionSummary
watch_turn_ends first states = (inspect first []).1 ++ watch states (inspect first []).0

pub record TurnFinishedNotice : Type 0 where
  pub session_id : String
  pub title : String

-- The browser's answers at the moment of a report.
pub record TurnNotificationRuntime : Type 0 where
  pub enabled : Bool
  pub permission : String
  pub looking : Bool

notice_of : TurnNotificationRuntime → SessionSummary → Option TurnFinishedNotice
notice_of runtime summary =
    if not runtime.enabled || not (runtime.permission == "granted")
    then none
    else if runtime.looking
    then none
    else some (record { session_id = summary.id; title = summary.display_title })
