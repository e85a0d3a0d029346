-- ===== src/McpChoice/Edits.antt =====
-- What each operation does to the stored lists and to the snapshots of the open turns.
use dsh_yawn.Base.{
  ℕ, ◌≡◌, refl, ap, String, Bool, true, false, Option, none, some, List, [], ltb, or_default,
  if◌then◌else◌, arith, ◌==◌, eq_iff, ◌∙◌,
}
use dsh_yawn.Dict.{get, get-put, get-delete}
use dsh_yawn.Exec.{Error, Result, ok, err}
use dsh_yawn.Store.{disabled_mcp_servers}
use dsh_yawn.Store.Memory.{set_disabled_mcp_servers-state}
use dsh_yawn.McpChoice.{
  McpServerEntry, McpServerView, McpChoice, chosen, defaults, sorted_names, first_unknown,
  begin_turn, end_turn, save, apply_now, view_after, set_known, set, warn_unfrozen, record_choice,
  freeze,
}

-- The list that a session chose for itself.
abbrev pub own_list : {E : Type 0} → McpChoice E → String → Option (List String)
own_list c j = disabled_mcp_servers c.store j

module _ {E : Type 0} (entries : List McpServerEntry) where
  pub begin_turn-store : (c : McpChoice E) (id : String) → (begin_turn entries c id).store ≡ c.store
  unfolding begin_turn
  begin_turn-store c id = ground arith

  pub begin_turn-live :
      (c : McpChoice E) (id j : String)
      → get (begin_turn entries c id).live j ≡ (
          if id == j
          then some (or_default (get c.live id) (chosen entries c.store id))
          else get c.live j)
  unfolding begin_turn
  begin_turn-live c id j =
      ground (arith, eq_iff id j, get-put c.live id j (chosen entries c.store id))

  pub end_turn-store :
      (b : Bool) (c : McpChoice E) (id : String) → (end_turn entries b c id).1.store ≡ c.store
  unfolding end_turn
  end_turn-store true c id = refl
  end_turn-store false c id = refl

  pub end_turn-live :
      (b : Bool) (c : McpChoice E) (id j : String)
      → get (end_turn entries b c id).1.live j
        ≡ (if b then get c.live j else if id == j then none else get c.live j)
  unfolding end_turn
  end_turn-live true c id j = refl
  end_turn-live false c id j = get-delete c.live id j

  module _ (write : E → Option Error × E) where
    save-own :
        (c : McpChoice E) (id j : String) (names : List String)
        → own_list (save entries write c id names).1 j
          ≡ (if id == j then some names else own_list c j)
    unfolding save disabled_mcp_servers
    save-own c id j names =
        ap (λ s. get s.disabled_mcp_servers j)
          (set_disabled_mcp_servers-state write c.store id names c.env)
        ∙ get-put c.store.state.disabled_mcp_servers id j names

    save-live :
        (c : McpChoice E) (id : String) (names : List String)
        → (save entries write c id names).1.live ≡ c.live
    unfolding save
    save-live c id names = refl

    warn_unfrozen-kept :
        (r : Result (Unit {0})) (c : McpChoice E)
        → ((warn_unfrozen entries write r c).store ≡ c.store)
          × ((warn_unfrozen entries write r c).live ≡ c.live)
    unfolding warn_unfrozen
    warn_unfrozen-kept (ok x) c = (refl, refl)
    warn_unfrozen-kept (err x) c = (refl, refl)

    record_choice-own :
        (c : McpChoice E) (id j : String) (names : List String)
        → own_list (record_choice entries write c id names) j
          ≡ (if id == j then some names else own_list c j)
    unfolding record_choice
    record_choice-own c id j names =
        ap (λ s. disabled_mcp_servers s j) (warn_unfrozen-kept _ _).0 ∙ save-own c id j names

    record_choice-live :
        (c : McpChoice E) (id : String) (names : List String)
        → (record_choice entries write c id names).live ≡ c.live
    unfolding record_choice
    record_choice-live c id names = (warn_unfrozen-kept _ _).1 ∙ save-live c id names

    abbrev first_list : ℕ → List String
    first_list turn = if ltb 1 turn then [] else defaults entries

    pub freeze-own :
        (c : McpChoice E) (id j : String) (turn : ℕ)
        → own_list (freeze entries write c id turn) j ≡ (
            if id == j
            then some (or_default (own_list c id) (if ltb 1 turn then [] else defaults entries))
            else own_list c j)
    unfolding freeze
    freeze-own c id j turn = ground (arith, eq_iff id j, record_choice-own c id j (first_list turn))

    pub freeze-live :
        (c : McpChoice E) (id : String) (turn : ℕ) → (freeze entries write c id turn).live ≡ c.live
    unfolding freeze
    freeze-live c id turn = ground (arith, record_choice-live c id (first_list turn))

    view_after-kept :
        (views : List McpServerView) (id : String) (r : Result (Unit {0})) (c : McpChoice E)
        → (view_after entries write views id r c).1 ≡ c
    unfolding view_after
    view_after-kept views id (ok x) c = refl
    view_after-kept views id (err x) c = refl

    apply_now-own :
        (b : Bool) (c : McpChoice E) (id j : String)
        → own_list (apply_now entries write b c id) j ≡ own_list c j
    unfolding apply_now
    apply_now-own true c id j = refl
    apply_now-own false c id j = refl

    apply_now-live :
        (b : Bool) (c : McpChoice E) (id j : String)
        → get (apply_now entries write b c id).live j
          ≡ (if b then get c.live j else if id == j then none else get c.live j)
    unfolding apply_now
    apply_now-live true c id j = refl
    apply_now-live false c id j = get-delete c.live id j

    -- A list that names an unknown server changes nothing.
    pub set-own :
        (b : Bool) (views : List McpServerView) (c : McpChoice E) (id j : String)
        (names : List String)
        → own_list (set entries write b views c id names).1 j ≡ elim (first_unknown entries names) [
          | some x ↦ own_list c j
          | none ↦ if id == j then some (sorted_names names) else own_list c j
        ]
    unfolding set set_known
    set-own b views c id j names = by_known (first_unknown entries names)
      where
        by_known :
            (o : Option String)
            → own_list (set_known entries write b views c id names o).1 j ≡ elim o [
              | some x ↦ own_list c j
              | none ↦ if id == j then some (sorted_names names) else own_list c j
            ]
        by_known (some x) = refl
        by_known none =
            ap (λ c. own_list c j) (view_after-kept views id _ _)
            ∙ apply_now-own b _ id j
            ∙ save-own c id j (sorted_names names)

    pub set-live :
        (b : Bool) (views : List McpServerView) (c : McpChoice E) (id j : String)
        (names : List String)
        → get (set entries write b views c id names).1.live j ≡ elim (first_unknown entries names) [
          | some x ↦ get c.live j
          | none ↦ if b then get c.live j else if id == j then none else get c.live j
        ]
    unfolding set set_known
    set-live b views c id j names = by_known (first_unknown entries names)
      where
        by_known :
            (o : Option String)
            → get (set_known entries write b views c id names o).1.live j ≡ elim o [
              | some x ↦ get c.live j
              | none ↦ if b then get c.live j else if id == j then none else get c.live j
            ]
        by_known (some x) = refl
        by_known none =
            ap (λ c. get c.live j) (view_after-kept views id _ _)
            ∙ apply_now-live b (save entries write c id (sorted_names names)).1 id j
            ∙ ap (λ m. if b then get m j else if id == j then none else get m j)
                (save-live c id (sorted_names names))
