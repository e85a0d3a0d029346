-- ===== src/Examples/Pages.antt =====
-- An archived session with an open turn, a subagent, a turn that ends, and a restored sandbox.
use dsh_yawn.Base.{
  keep, ◌≡◌, refl, String, Bool, true, false, Option, none, some, List, [], ◌∷◌, is_some, contains,
  length, ◌+◌, arith, if◌then◌else◌, ◌==◌,
}
use dsh_yawn.Lifecycle.Isolation.{holding}
use dsh_yawn.ArchiveRelease.{reconcile}
use dsh_yawn.ArchiveRelease.Spared.{reconcile-holding}
use dsh_yawn.RootSession.{Agent, root_session_id}
use dsh_yawn.RootSession.Walk.{Ancestor, root_session_id-enough}
use dsh_yawn.Notifications.{
  SessionSummary, SessionListState, watch_turn_ends, inspect, watch, scan, observe, top_level,
  is_subagent, has_ended, is_seen,
}
use dsh_yawn.Notifications.Edges.{edges, watch_turn_ends-edges}
use dsh_yawn.Notices.{NoticeEvent, after_restore, pre_step, enter, other_message, run}
use dsh_yawn.Notices.Delivered.{told, run-told}
use dsh_yawn.Dict.{get, put}
use dsh_yawn.Examples.{deps, awake, box}
use dsh_yawn.Examples.Sessions.{awake-KeyedRecords}

reconcile-holding_example :
    holding (reconcile deps ("s" ∷ []) (λ id. true) awake) "s" ≡ holding awake "s"
reconcile-holding_example =
    reconcile-holding deps ("s" ∷ []) (λ id. true) awake "s" awake-KeyedRecords refl

abbrev parent_agent : Agent
parent_agent = record { id = "p"; origin = none; parent_session = none }

abbrev child_agent : Agent
child_agent = record { id = "c"; origin = some "subagent"; parent_session = some "p" }

abbrev known : List String
known = "p" ∷ []

abbrev lookup : String → Option Agent
lookup name = if "p" == name then some parent_agent else none

lookup-known : (name : String) → is_some (lookup name) ≡ true → contains known name ≡ true
lookup-known name h = ground (arith, h)

root_session_id-enough_example :
    (root : Agent) × (root_session_id lookup (length known + 1) child_agent ≡ some root.id)
    × Ancestor lookup child_agent root
root_session_id-enough_example = root_session_id-enough lookup known child_agent lookup-known

abbrev summary : Bool → SessionSummary
summary running = record { id = "s"; origin = none; running = running; display_title = "S" }

abbrev snapshot : Bool → SessionListState
snapshot running = record { ids = "s" ∷ []; by_id = ("s", summary running) ∷ [] }

watch_turn_ends-edges_example :
    watch_turn_ends (snapshot true) (snapshot false ∷ snapshot false ∷ [])
    ≡ edges (snapshot true) (snapshot false ∷ snapshot false ∷ [])
watch_turn_ends-edges_example =
    watch_turn_ends-edges (snapshot true) (snapshot false ∷ snapshot false ∷ []) (refl, tt)
      ((refl, tt), ((refl, tt), tt))

-- A restore, and two prompts after it.
abbrev restored_then_prompted : List NoticeEvent
restored_then_prompted =
    after_restore "s" box (record { commit = none; branch = none; artifacts_dropped = true })
    ∷ pre_step "s" (enter (other_message "hello" ∷ []))
    ∷ pre_step "s" (enter (other_message "again" ∷ []))
    ∷ []

run-told_example :
    keep (λ d. d.0 == "s") (run "/artifacts" [] restored_then_prompted)
    ≡ told "/artifacts" "s" none restored_then_prompted
run-told_example = run-told "/artifacts" "s" restored_then_prompted

-- The turn that ended is reported once.
snapshot-reported :
    watch_turn_ends (snapshot true) (snapshot false ∷ snapshot false ∷ []) ≡ summary false ∷ []
unfolding watch_turn_ends inspect watch scan observe top_level is_subagent has_ended is_seen get put
snapshot-reported = refl
