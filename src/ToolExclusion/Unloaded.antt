-- ===== src/ToolExclusion/Unloaded.antt =====
-- What is left once the row has been unloaded.
use dsh_yawn.Base.{
  ◌≡◌, refl, String, true, false, none, List, [], ◌∷◌, contains, if◌then◌else◌, arith, ◌∙◌,
}
use dsh_yawn.Dict.{get, keys}
use dsh_yawn.ToolExclusion.{Host, ToolExclusion, sync, remove, for_each, reconcile, dispose}
use dsh_yawn.ToolExclusion.Steps.{remove-get, remove-disposed, scope_live-get, scope_live-disposed}
use dsh_yawn.ToolExclusion.Settled.{contains-keys}
use dsh_yawn.ToolExclusion.History.{
  Event, agent_created, agent_disposed, tools_live, changed, handle, run,
}

remove_each-get :
    (h : Host) (ids : List String) (s : ToolExclusion) (k : String)
    → get (for_each (remove h) ids s).policies k
      ≡ (if contains ids k then none else get s.policies k)
unfolding for_each
remove_each-get h [] s k = refl
remove_each-get h (a ∷ ids) s k =
    ground (arith, remove_each-get h ids (remove h a s) k, remove-get h a s k)

remove_each-disposed :
    (h : Host) (ids : List String) (s : ToolExclusion)
    → (for_each (remove h) ids s).disposed ≡ s.disposed
unfolding for_each
remove_each-disposed h [] s = refl
remove_each-disposed h (a ∷ ids) s =
    remove_each-disposed h ids (remove h a s) ∙ remove-disposed h a s

abbrev Unloaded : ToolExclusion → Type 0
Unloaded s = (s.disposed ≡ true) × ((k : String) → get s.policies k ≡ none)

dispose-Unloaded : (h : Host) (s : ToolExclusion) → s.disposed ≡ false → Unloaded (dispose h s)
unfolding dispose
dispose-Unloaded h s e = (
  ground (arith, e, remove_each-disposed h (keys s.policies) (record s { disposed = true })),
  λ k. ground (
    arith,
    e,
    remove_each-get h (keys s.policies) (record s { disposed = true }) k,
    contains-keys s.policies k,
  ),
)

handle-Unloaded : (event : Event) (s : ToolExclusion) → Unloaded s → Unloaded (handle event s)
unfolding handle sync reconcile
handle-Unloaded (agent_created h a) s (e, i) = (ground (arith, e), λ k. ground (arith, e, i k))
handle-Unloaded (agent_disposed h a) s (e, i) =
    (remove-disposed h a s ∙ e, λ k. ground (arith, remove-get h a s k, i k))
handle-Unloaded (tools_live h a) s (e, i) =
    (scope_live-disposed h a s ∙ e, λ k. ground (arith, scope_live-get h a s k, i a, i k))
handle-Unloaded (changed h changes) s (e, i) = (ground (arith, e), λ k. ground (arith, e, i k))

run-Unloaded : (events : List Event) (s : ToolExclusion) → Unloaded s → Unloaded (run events s)
unfolding run
run-Unloaded [] s i = i
run-Unloaded (event ∷ events) s i = run-Unloaded events (handle event s) (handle-Unloaded event s i)

-- Once the row has been unloaded no agent has a policy, and no event that comes in late makes one:
-- neither a new agent, nor tools that come up, nor a change of the registry.
pub run-dispose :
    (events : List Event) (h : Host) (s : ToolExclusion) (k : String)
    → s.disposed ≡ false
    → get (run events (dispose h s)).policies k ≡ none
run-dispose events h s k e = (run-Unloaded events (dispose h s) (dispose-Unloaded h s e)).1 k
