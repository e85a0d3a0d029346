-- ===== src/ToolExclusion/History.antt =====
-- What a reconcile settles, whatever came before it.
use dsh_yawn.Base.{
  ◌≡◌, refl, ap, All, subst, String, true, false, none, some, List, [], ◌∷◌, contains,
  if◌then◌else◌, ◌==◌, ◌∙◌, sym,
}
use dsh_yawn.Dict.{get}
use dsh_yawn.ToolExclusion.{Host, ToolExclusion, scope_live, remove, sync, pass, passes, reconcile}
use dsh_yawn.ToolExclusion.Steps.{
  Policy, arrive, synced, sync-get, sync-disposed, scope_live-get, scope_live-disposed, remove-get,
  remove-disposed,
}
use dsh_yawn.ToolExclusion.Settled.{pass-get, pass-disposed}
use dsh_yawn.ToolExclusion.Denied.{
  either, Sound, Settled, refresh-Sound, synced-Sound, passed-Sound, passed-Settled,
}

-- Every agent's mask is the one of its recorded names.
abbrev AllSound : ToolExclusion → Type 0
AllSound s = (k : String) → Sound (get s.policies k)

pub data Event : Type 0 where
  agent_created : Host → String → Event
  agent_disposed : Host → String → Event
  tools_live : Host → String → Event
  changed : Host → List Host → Event

unfoldable pub handle : Event → ToolExclusion → ToolExclusion
handle (agent_created h a) s = sync h a s
handle (agent_disposed h a) s = remove h a s
handle (tools_live h a) s = scope_live h a s
handle (changed h changes) s = reconcile h changes s

unfoldable pub run : List Event → ToolExclusion → ToolExclusion
unfolding handle
run [] s = s
run (event ∷ events) s = run events (handle event s)

unfoldable pub fresh : ToolExclusion
fresh = record { policies = []; disposed = false; warnings = [] }

-- The host as it is after the changes that came in.
abbrev pub last_of : Host → List Host → Host
last_of h [] = h
last_of h (next ∷ rest) = last_of next rest

-- No change brought other registered tools than those that the reconcile read at its start.
abbrev pub SameTools : Host → List Host → Type 0
SameTools h changes = All (λ c. c.tool_names ≡ h.tool_names) changes

module _ (h : Host) (s : ToolExclusion) (e : s.disposed ≡ false) (i : AllSound s) where
  pass-Sound : AllSound (pass h s)
  pass-Sound k = subst Sound (sym (pass-get h s k e)) (passed-Sound h k (get s.policies k) (i k))

  pass-Settled : (k : String) → contains h.agents k ≡ true → Settled h k (get (pass h s).policies k)
  pass-Settled k listed =
      subst (Settled h k) (sym (pass-get h s k e))
        (passed-Settled h k (get s.policies k) listed (i k))

same_tools :
    (h next : Host)
    → next.tool_names ≡ h.tool_names
    → record next { tool_names = h.tool_names } ≡ next
same_tools h next e = ap (λ ns. record next { tool_names = ns }) (sym e)

SameTools-next :
    (h next : Host) (rest : List Host)
    → next.tool_names ≡ h.tool_names
    → SameTools h rest
    → SameTools next rest
SameTools-next h next [] e same = tt
SameTools-next h next (c ∷ rest) e (f, same) = (f ∙ sym e, SameTools-next h next rest e same)

passes-Settled :
    (h : Host) (changes : List Host) (s : ToolExclusion) (k : String)
    → s.disposed ≡ false
    → AllSound s
    → SameTools h changes
    → contains (last_of h changes).agents k ≡ true
    → Settled (last_of h changes) k (get (passes h changes s).policies k)
unfolding passes
passes-Settled h [] s k e i same listed = pass-Settled h s e i k listed
passes-Settled h (next ∷ rest) s k e i (f, same) listed =
    subst (λ x. Settled (last_of next rest) k (get (passes x rest (pass h s)).policies k))
      (sym (same_tools h next f))
      (passes-Settled next rest (pass h s) k (pass-disposed h s ∙ e) (pass-Sound h s e i)
        (SameTools-next h next rest f same) listed)

passes-Sound :
    (h : Host) (changes : List Host) (s : ToolExclusion)
    → s.disposed ≡ false
    → AllSound s
    → AllSound (passes h changes s) × ((passes h changes s).disposed ≡ false)
unfolding passes
passes-Sound h [] s e i = (pass-Sound h s e i, pass-disposed h s ∙ e)
passes-Sound h (next ∷ rest) s e i =
    passes-Sound (record next { tool_names = h.tool_names }) rest (pass h s) (pass-disposed h s ∙ e)
      (pass-Sound h s e i)

arrived-Sound :
    (h : Host) (a : String) (o : Policy)
    → Sound o
    → Sound (elim o [ none ↦ none | some p ↦ some (arrive h a p) ])
arrived-Sound h a none i = tt
arrived-Sound h a (some p) i = refresh-Sound h a (record p { live = true }) i

-- A state that has not been disposed, with every mask sound.
abbrev Running : ToolExclusion → Type 0
Running s = (s.disposed ≡ false) × AllSound s

handle-Running : (event : Event) (s : ToolExclusion) → Running s → Running (handle event s)
unfolding handle reconcile
handle-Running (agent_created h a) s (e, i) = (
  sync-disposed h a s ∙ e,
  λ k. subst Sound (sym (sync-get h a s k e)) (
      either Sound (a == k) (synced h a (get s.policies a)) (get s.policies k)
        (λ _. synced-Sound h a (get s.policies a) (i a)) (λ _. i k)),
)
handle-Running (agent_disposed h a) s (e, i) = (
  remove-disposed h a s ∙ e,
  λ k.
      subst Sound (sym (remove-get h a s k))
        (either Sound (a == k) none (get s.policies k) (λ _. tt) (λ _. i k)),
)
handle-Running (tools_live h a) s (e, i) = (
  scope_live-disposed h a s ∙ e,
  λ k. subst Sound (sym (scope_live-get h a s k)) (
      either Sound (a == k) (elim (get s.policies a) [ none ↦ none | some p ↦ some (arrive h a p) ])
        (get s.policies k) (λ _. arrived-Sound h a (get s.policies a) (i a)) (λ _. i k)),
)
handle-Running (changed h changes) s (e, i) =
    subst (λ b. Running (if b then s else passes h changes s)) (sym e)
      (let (sound, still) = passes-Sound h changes s e i in (still, sound))

run-Running : (events : List Event) (s : ToolExclusion) → Running s → Running (run events s)
unfolding run
run-Running [] s i = i
run-Running (event ∷ events) s i = run-Running events (handle event s) (handle-Running event s i)

fresh-Running : Running fresh
unfolding fresh get
fresh-Running = (refl, λ k. tt)

-- Whatever came before, a reconcile during which the registered tools stay the same leaves every agent
-- that is listed after the changes that came in with the mask that it should have: the names that are
-- denied to it are those that must be hidden from it, unless the host refused that mask or the watch on
-- the agent, or the agent's tools are not there yet.
pub reconcile-Settled :
    (events : List Event) (h : Host) (changes : List Host) (a : String)
    → SameTools h changes
    → contains (last_of h changes).agents a ≡ true
    → Settled (last_of h changes) a (get (reconcile h changes (run events fresh)).policies a)
unfolding reconcile
reconcile-Settled events h changes a same listed =
    let (e, i) = run-Running events fresh fresh-Running in
    subst
      (λ b.
        Settled (last_of h changes) a
          (get (if b then run events fresh else passes h changes (run events fresh)).policies a))
      (sym e) (passes-Settled h changes (run events fresh) a e i same listed)
