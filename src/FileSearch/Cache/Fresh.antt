-- ===== src/FileSearch/Cache/Fresh.antt =====
-- Which trees queries are answered from.
use dsh_yawn.Base.{
  ℕ, ◌+◌, ◌≤◌, ◌≡◌, refl, ap, sym, subst, ◌∙◌, String, Bool, true, false, Option, none, some, List,
  [], ◌∷◌, ltb, or_default, if◌then◌else◌, arith, ◌==◌,
}
use dsh_yawn.Dict.{get}
use dsh_yawn.FileSearch.Cache.{
  Snapshot, FileReferences, fresh, invalidation_count, Answer, settled, refreshing, snapshot_found,
  snapshot, Walked, indexed, no_sandbox, failed, Event, asked, tool_result, walk_ended, handle, run,
}
use dsh_yawn.FileSearch.Cache.Kept.{Kept, kept_of, after_ask, after_walk, kept_after, handle-kept}

-- Of one agent: whether a tool has ended since its refresh under way started, and since the refresh
-- of its snapshot did; none where there is no refresh or no snapshot.
pub record Outdated : Type 0 where
  pub under_way : Option Bool
  pub shown : Option Bool

abbrev marked : Option Bool → Option Bool
marked none = none
marked (some b) = some true

abbrev started_now : Option Bool → Option Bool
started_now none = some false
started_now (some b) = some b

-- A query starts a refresh unless one is under way or the snapshot is current.
abbrev asked_for : Outdated → Option Bool → Outdated
asked_for o (some false) = o
asked_for o _ = record o { under_way = started_now o.under_way }

abbrev walk_done : Outdated → Walked → Option Bool → Outdated
walk_done o w none = o
walk_done o (indexed index) (some b) = record { under_way = none; shown = some b }
walk_done o _ (some b) = record o { under_way = none }

abbrev pub follow : String → Outdated → Event → Outdated
follow a o (asked agent prefer_fresh) = if agent == a then asked_for o o.shown else o
follow a o (tool_result agent) =
    if agent == a then record { under_way = marked o.under_way; shown = marked o.shown } else o
follow a o (walk_ended agent walked) = if agent == a then walk_done o walked o.under_way else o

abbrev pub follow_all : String → Outdated → List Event → Outdated
follow_all a o [] = o
follow_all a o (event ∷ events) = follow_all a (follow a o event) events

-- The marks, read off the counters.
abbrev behind : ℕ → Option ℕ → Option Bool
behind count none = none
behind count (some started) = some (ltb started count)

abbrev started_of : Option Snapshot → Option ℕ
started_of none = none
started_of (some n) = some n.started_at

abbrev outdated : Kept → Outdated
outdated k = record {
  under_way = behind k.count k.started;
  shown = behind k.count (started_of k.found);
}

abbrev UpTo : ℕ → Option ℕ → Type 0
UpTo count none = Unit
UpTo count (some started) = started ≤ count

-- No refresh started at a count that is still to come.
abbrev Bounded : Kept → Type 0
Bounded k = UpTo k.count k.started × UpTo k.count (started_of k.found)

marked-behind : (c : ℕ) (o : Option ℕ) → UpTo c o → behind (c + 1) o ≡ marked (behind c o)
marked-behind c none i = refl
marked-behind c (some n) i = ground (arith, i)

UpTo-next : (c : ℕ) (o : Option ℕ) → UpTo c o → UpTo (c + 1) o
UpTo-next c none i = tt
UpTo-next c (some n) i = omega (arith, i)

started_now-behind :
    (c : ℕ) (o : Option ℕ) → behind c (some (or_default o c)) ≡ started_now (behind c o)
started_now-behind c none = ground arith
started_now-behind c (some n) = refl

UpTo-started : (c : ℕ) (o : Option ℕ) → UpTo c o → UpTo c (some (or_default o c))
UpTo-started c none i = omega arith
UpTo-started c (some n) i = i

after_ask-outdated :
    (k : Kept) (o : Option Snapshot)
    → outdated (after_ask k o) ≡ asked_for (outdated k) (behind k.count (started_of o))
after_ask-outdated k none =
    ap (λ u. record (outdated k) { under_way = u }) (started_now-behind k.count k.started)
after_ask-outdated k (some n) =
    elim (ltb n.started_at k.count)
      as (λ b.
        outdated (if b then record k { started = some (or_default k.started k.count) } else k)
        ≡ asked_for (outdated k) (some b)) [
          | true ↦
              ap (λ u. record (outdated k) { under_way = u }) (started_now-behind k.count k.started)
          | false ↦ refl
        ]

after_ask-Bounded : (k : Kept) (o : Option Snapshot) → Bounded k → Bounded (after_ask k o)
after_ask-Bounded k none (i, j) = (UpTo-started k.count k.started i, j)
after_ask-Bounded k (some n) (i, j) =
    elim (ltb n.started_at k.count)
      as (λ b.
        Bounded (if b then record k { started = some (or_default k.started k.count) } else k)) [
          | true ↦ (UpTo-started k.count k.started i, j)
          | false ↦ (i, j)
        ]

after_walk-outdated :
    (k : Kept) (w : Walked) (o : Option ℕ)
    → outdated (after_walk k w o) ≡ walk_done (outdated k) w (behind k.count o)
after_walk-outdated k (indexed index) none = refl
after_walk-outdated k no_sandbox none = refl
after_walk-outdated k failed none = refl
after_walk-outdated k (indexed index) (some b) = refl
after_walk-outdated k no_sandbox (some b) = refl
after_walk-outdated k failed (some b) = refl

after_walk-Bounded :
    (k : Kept) (w : Walked) (o : Option ℕ) → UpTo k.count o → Bounded k → Bounded (after_walk k w o)
after_walk-Bounded k (indexed index) none e i = i
after_walk-Bounded k no_sandbox none e i = i
after_walk-Bounded k failed none e i = i
after_walk-Bounded k (indexed index) (some b) e (i, j) = (tt, e)
after_walk-Bounded k no_sandbox (some b) e (i, j) = (tt, j)
after_walk-Bounded k failed (some b) e (i, j) = (tt, j)

kept_after-outdated :
    (a : String) (k : Kept) (event : Event)
    → Bounded k
    → outdated (kept_after a k event) ≡ follow a (outdated k) event
kept_after-outdated a k (asked agent prefer_fresh) (i, j) =
    elim (agent == a)
      as (λ b.
        outdated (if b then after_ask k k.found else k)
        ≡ (if b then asked_for (outdated k) (outdated k).shown else outdated k)) [
          | true ↦ after_ask-outdated k k.found
          | false ↦ refl
        ]
kept_after-outdated a k (tool_result agent) (i, j) =
    elim (agent == a)
      as (λ b. outdated (if b then record k { count = k.count + 1 } else k) ≡ (
        if b
        then record { under_way = marked (outdated k).under_way; shown = marked (outdated k).shown }
        else outdated k)) [
          | true ↦ λ d. record {
            under_way = marked-behind k.count k.started i d;
            shown = marked-behind k.count (started_of k.found) j d;
          }
          | false ↦ refl
        ]
kept_after-outdated a k (walk_ended agent walked) (i, j) =
    elim (agent == a)
      as (λ b.
        outdated (if b then after_walk k walked k.started else k)
        ≡ (if b then walk_done (outdated k) walked (outdated k).under_way else outdated k)) [
          | true ↦ after_walk-outdated k walked k.started
          | false ↦ refl
        ]

kept_after-Bounded :
    (a : String) (k : Kept) (event : Event) → Bounded k → Bounded (kept_after a k event)
kept_after-Bounded a k (asked agent prefer_fresh) i =
    elim (agent == a) as (λ b. Bounded (if b then after_ask k k.found else k)) [
      | true ↦ after_ask-Bounded k k.found i
      | false ↦ i
    ]
kept_after-Bounded a k (tool_result agent) (i, j) =
    elim (agent == a) as (λ b. Bounded (if b then record k { count = k.count + 1 } else k)) [
      | true ↦ (UpTo-next k.count k.started i, UpTo-next k.count (started_of k.found) j)
      | false ↦ (i, j)
    ]
kept_after-Bounded a k (walk_ended agent walked) (i, j) =
    elim (agent == a) as (λ b. Bounded (if b then after_walk k walked k.started else k)) [
      | true ↦ after_walk-Bounded k walked k.started i (i, j)
      | false ↦ (i, j)
    ]

run-outdated :
    (a : String) (events : List Event) (s : FileReferences)
    → Bounded (kept_of s a)
    → outdated (kept_of (run s events) a) ≡ follow_all a (outdated (kept_of s a)) events
unfolding run
run-outdated a [] s i = refl
run-outdated a (event ∷ events) s i =
    run-outdated a events (handle s event)
      (subst Bounded (sym (handle-kept s event a)) (kept_after-Bounded a (kept_of s a) event i))
    ∙ ap (λ o. follow_all a o events)
        (ap outdated (handle-kept s event a) ∙ kept_after-outdated a (kept_of s a) event i)

fresh-Bounded : (a : String) → Bounded (kept_of fresh a)
unfolding fresh get
fresh-Bounded a = (tt, tt)

fresh-outdated :
    (a : String) → outdated (kept_of fresh a) ≡ record { under_way = none; shown = none }
unfolding fresh get
fresh-outdated a = refl

-- Whether a query that wants a fresh tree is answered at once.
abbrev pub answered : Answer → Bool
answered (settled n) = true
answered refreshing = false

-- Whether there is a snapshot that no tool has outdated.
abbrev pub is_current : Option Bool → Bool
is_current (some false) = true
is_current _ = false

snapshot_found-answered :
    (s : FileReferences) (a : String) (o : Option Snapshot)
    → answered (snapshot_found s a true o).0
      ≡ is_current (behind (invalidation_count s a) (started_of o))
unfolding snapshot_found
snapshot_found-answered s a none = refl
snapshot_found-answered s a (some n) = ground arith

-- After any queries, tool results and ends of walks, a directory query is answered at once if and
-- only if there is a snapshot and no tool of its agent has ended since the refresh that brought it
-- started; else the query waits for a refresh, which may be one that was already under way.
pub run-answered :
    (events : List Event) (a : String)
    → answered (snapshot (run fresh events) a true).0
      ≡ is_current (follow_all a (record { under_way = none; shown = none }) events).shown
unfolding snapshot
run-answered events a =
    snapshot_found-answered (run fresh events) a (get (run fresh events).snapshots a)
    ∙ ap (λ o. is_current o.shown)
        (run-outdated a events fresh (fresh-Bounded a)
          ∙ ap (λ o. follow_all a o events) (fresh-outdated a))
