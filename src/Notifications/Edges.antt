-- ===== src/Notifications/Edges.antt =====
-- The reports of the watcher, told from each two snapshots that follow one another.
use dsh_yawn.Base.{
  ◌≡◌, refl, ap, String, Bool, true, false, Option, none, some, List, [], ◌∷◌, ◌++◌, keep, contains,
  All, if◌then◌else◌, arith, ◌∙◌, String-cases, inl, inr, eq_iff,
}
use dsh_yawn.Dict.{Dict, get, get-put, get-empty}
use dsh_yawn.Notifications.{
  SessionSummary, SessionListState, top_level, has_ended, observe, scan, is_seen, inspect, watch,
  watch_turn_ends,
}

-- The running bit of a listed top-level session.
abbrev pub running_bit : SessionListState → String → Option Bool
running_bit state id =
    if contains state.ids id
    then elim (top_level state id) [ none ↦ none | some summary ↦ some summary.running ]
    else none

abbrev pub ended_at : (String → Option Bool) → String → Option SessionSummary → List SessionSummary
ended_at before id none = []
ended_at before id (some summary) = if has_ended (before id) summary then summary ∷ [] else []

-- The sessions of a list that ran before and rest now.
abbrev pub ended : SessionListState → (String → Option Bool) → List String → List SessionSummary
ended state before [] = []
ended state before (id ∷ ids) = ended_at before id (top_level state id) ++ ended state before ids

-- Every two snapshots that follow one another.
abbrev pub edges : SessionListState → List SessionListState → List SessionSummary
edges first [] = []
edges first (state ∷ states) = ended state (running_bit first) state.ids ++ edges state states

abbrev pub Distinct : List String → Type 0
Distinct [] = Unit
Distinct (id ∷ ids) = (contains ids id ≡ false) × Distinct ids

observe-get :
    (running : Dict Bool) (id j : String) (o : Option SessionSummary)
    → contains (id ∷ []) j ≡ false
    → get (observe running id o).0 j ≡ get running j
unfolding observe
observe-get running id j none h = refl
observe-get running id j (some summary) h = ground (arith, h, get-put running id j summary.running)

observe_self :
    (running : Dict Bool) (id : String) (o : Option SessionSummary)
    → get (observe running id o).0 id
      ≡ elim o [ none ↦ get running id | some summary ↦ some summary.running ]
unfolding observe
observe_self running id none = refl
observe_self running id (some summary) =
    ground (arith, get-put running id id summary.running, eq_iff id id)

-- The bits after the loop.
scan-get :
    (state : SessionListState) (ids : List String) (running : Dict Bool) (j : String)
    → Distinct ids
    → get (scan state ids running).0 j ≡ (
        if contains ids j
        then elim (top_level state j) [ none ↦ get running j | some summary ↦ some summary.running ]
        else get running j)
unfolding scan
scan-get state [] running j d = refl
scan-get state (id ∷ ids) running j (fresh, d) =
    let found = top_level state id in
    let after = (observe running id found).0 in
    elim (String-cases id j) [
      | inl here ↦ ground (
        arith,
        here,
        fresh,
        eq_iff id j,
        scan-get state ids after j d,
        observe_self running id found,
      )
      | inr other ↦ ground (
        arith,
        eq_iff id j,
        scan-get state ids after j d,
        observe-get running id j found (ground (arith, eq_iff id j)),
      )
    ]

observe-ended :
    (running : Dict Bool) (before : String → Option Bool) (id : String) (o : Option SessionSummary)
    → get running id ≡ before id
    → (observe running id o).1 ≡ ended_at before id o
unfolding observe
observe-ended running before id none h = refl
observe-ended running before id (some summary) h =
    ap (λ bit. if has_ended bit summary then summary ∷ [] else []) h

distinct_names :
    (ids : List String) (id j : String)
    → contains ids id ≡ false
    → contains ids j ≡ true
    → contains (id ∷ []) j ≡ false
distinct_names ids id j fresh listed = elim (String-cases id j) [
  | inl here ↦ absurd (ground (arith, fresh, listed, ap (contains ids) here))
  | inr other ↦ ground (arith, eq_iff id j)
]

-- The reports of the loop, by the bits before it.
scan-ended :
    (state : SessionListState) (ids : List String) (running : Dict Bool)
    (before : String → Option Bool)
    → Distinct ids
    → ((j : String) → contains ids j ≡ true → get running j ≡ before j)
    → (scan state ids running).1 ≡ ended state before ids
unfolding scan
scan-ended state [] running before d h = refl
scan-ended state (id ∷ ids) running before (fresh, d) h =
    let found = top_level state id in
    let after = (observe running id found).0 in
    let kept : (j : String) → contains ids j ≡ true → get after j ≡ before j = λ j listed.
      (observe-get running id j found (distinct_names ids id j fresh listed)
        ∙ h j (ground (arith, listed))) in
    ap (λ now. now ++ (scan state ids after).1)
      (observe-ended running before id found (h id (ground (arith, eq_iff id id))))
    ∙ ap (λ later. ended_at before id found ++ later) (scan-ended state ids after before d kept)

keep-get :
    (p : String → Bool) (m : Dict Bool) (j : String)
    → get (keep (λ e. p e.0) m) j ≡ (if p j then get m j else none)
unfolding get
keep-get p [] j = ground arith
keep-get p ((k, v) ∷ m) j = elim (String-cases k j) [
  | inl here ↦ ground (arith, here, eq_iff k j, keep-get p m j, ap p here)
  | inr other ↦ ground (arith, eq_iff k j, keep-get p m j)
]

-- What an inspection leaves is the running bits of its snapshot.
inspect-get :
    (state : SessionListState) (running : Dict Bool) (j : String)
    → Distinct state.ids
    → get (inspect state running).0 j ≡ running_bit state j
unfolding inspect is_seen
inspect-get state running j d =
    keep-get (is_seen state) (scan state state.ids running).0 j
    ∙ ground (arith, scan-get state state.ids running j d)

inspect-ended :
    (state : SessionListState) (running : Dict Bool) (before : String → Option Bool)
    → Distinct state.ids
    → ((j : String) → get running j ≡ before j)
    → (inspect state running).1 ≡ ended state before state.ids
unfolding inspect
inspect-ended state running before d h =
    scan-ended state state.ids running before d (λ j listed. h j)

watch-edges :
    (first : SessionListState) (states : List SessionListState) (running : Dict Bool)
    → ((j : String) → get running j ≡ running_bit first j)
    → All (λ s. Distinct s.ids) states
    → watch states running ≡ edges first states
unfolding watch
watch-edges first [] running h d = refl
watch-edges first (state ∷ states) running h (d, ds) =
    ap (λ now. now ++ watch states (inspect state running).0)
      (inspect-ended state running (running_bit first) d h)
    ∙ ap (λ later. ended state (running_bit first) state.ids ++ later)
        (watch-edges state states (inspect state running).0 (λ j. inspect-get state running j d) ds)

-- Nothing ran before the first snapshot.
ended-nothing : (state : SessionListState) (ids : List String) → ended state (λ j. none) ids ≡ []
unfolding has_ended
ended-nothing state [] = refl
ended-nothing state (id ∷ ids) = ground (arith, ended-nothing state ids)

-- On a feed whose snapshots list no session twice, the watcher reports, in order, for every two
-- snapshots that follow one another the top-level sessions that the first of them lists as running
-- and the second as resting, and nothing else: the first snapshot reports nothing.
pub watch_turn_ends-edges :
    (first : SessionListState) (states : List SessionListState)
    → Distinct first.ids
    → All (λ s. Distinct s.ids) states
    → watch_turn_ends first states ≡ edges first states
unfolding watch_turn_ends
watch_turn_ends-edges first states d ds =
    ap (λ now. now ++ watch states (inspect first []).0)
      (inspect-ended first [] (λ j. none) d (λ j. get-empty {V = Bool} j)
        ∙ ended-nothing first first.ids)
    ∙ watch-edges first states (inspect first []).0 (λ j. inspect-get first [] j d) ds
