-- ===== src/Tunnel/Waiting.antt =====
-- Who waits: only for a sandbox whose runner is not there, and no empty set of waiters is kept.
use dsh_yawn.Base.{
  ℕ, ◌≡◌, refl, sym, subst, String, not, ◌⊎◌, inl, inr, Option, none, some, List, [], ◌∷◌, ◌++◌,
  any, keep, or_default, eqb, arith, eq_iff, ◌∙◌, Option-cases, Bool-cases, String-cases,
}
use dsh_yawn.Dict.{
  Dict, get, get-delete, get-empty, get-put_ne, get-put_self, get-delete_self, get-delete_ne,
}
use dsh_yawn.Codes.{Codes}
use dsh_yawn.Tunnel.{
  without, Tunnel, fresh, UpgradeRequest, live_stream, destroy, wait_for, timed_out, drop, register,
  stream_closed, close, TunnelEvent, waited, dropped, gave_up, closed_stream, upgraded,
  probe_failed, shut_down, upgrade, step, run,
}
use dsh_yawn.Tunnel.Upgrades.{upgrade-cases}

-- What the table of waiters holds for a sandbox.
abbrev pub Waits : String → Tunnel → Type 0
Waits id s =
    (get s.waiters id ≡ none)
    ⊎ ((p : ℕ) × (ps : List ℕ) × (get s.waiters id ≡ some (p ∷ ps)) × (live_stream s id ≡ none))

list_end : (xs : List ℕ) (x : ℕ) → (y : ℕ) × (ys : List ℕ) × (xs ++ x ∷ [] ≡ y ∷ ys)
list_end [] x = (x, [], refl)
list_end (y ∷ ys) x = (y, ys ++ x ∷ [], refl)

-- Streams that go make no sandbox live.
fewer-Waits :
    (s s' : Tunnel) (id : String)
    → get s'.waiters id ≡ get s.waiters id
    → (live_stream s id ≡ none → live_stream s' id ≡ none)
    → Waits id s
    → Waits id s'
fewer-Waits s s' id e k (inl empty) = inl (e ∙ empty)
fewer-Waits s s' id e k (inr (p, ps, held, absent)) = inr (p, ps, e ∙ held, k absent)

waiting_behind :
    (waiters : Option (List ℕ)) (p : ℕ)
    → (y : ℕ) × (ys : List ℕ) × (or_default waiters [] ++ p ∷ [] ≡ y ∷ ys)
waiting_behind waiters p = list_end (or_default waiters []) p

wait_for-Waits : (s : Tunnel) (j id : String) → Waits id s → Waits id (wait_for s j)
unfolding wait_for
wait_for-Waits s j id w = elim (Option-cases (live_stream s j)) [
  | inr (n, live) ↦
      fewer-Waits s (wait_for s j) id (ground (arith, live)) (λ h. ground (arith, h, live)) w
  | inl absent ↦ elim (String-cases j id) [
    | inr other ↦
        fewer-Waits s (wait_for s j) id
          (ground (
            arith,
            absent,
            get-put_ne s.waiters j id (or_default (get s.waiters j) [] ++ s.promises ∷ []) other,
          ))
          (λ h. ground (arith, h, absent)) w
    | inl here ↦
        let (y, ys, e) = waiting_behind (get s.waiters j) s.promises in
        inr (
          y,
          ys,
          ground (
            arith,
            absent,
            here,
            e,
            get-put_self s.waiters id (or_default (get s.waiters j) [] ++ s.promises ∷ []),
          ),
          ground (arith, absent, here),
        )
  ]
]

without-get :
    (m : Dict (List ℕ)) (j id : String) (xs : List ℕ)
    → ¬ (j ≡ id)
    → get (without m j xs) id ≡ get m id
unfolding without
without-get m j id [] other = get-delete_ne m j id other
without-get m j id (x ∷ xs) other = get-put_ne m j id (x ∷ xs) other

without_self :
    (m : Dict (List ℕ)) (id : String) (xs : List ℕ)
    → (get (without m id xs) id ≡ none)
      ⊎ ((p : ℕ) × (ps : List ℕ) × (get (without m id xs) id ≡ some (p ∷ ps)))
unfolding without
without_self m id [] = inl (get-delete_self m id)
without_self m id (x ∷ xs) = inr (x, xs, get-put_self m id (x ∷ xs))

timed_out-Waits :
    (s : Tunnel) (j : String) (p : ℕ) (id : String) → Waits id s → Waits id (timed_out s j p)
unfolding timed_out
timed_out-Waits s j p id w = elim (Bool-cases (any (eqb p) (or_default (get s.waiters j) []))) [
  | inr late ↦
      fewer-Waits s (timed_out s j p) id (ground (arith, late)) (λ h. ground (arith, h, late)) w
  | inl waits ↦ elim (String-cases j id) [
    | inr other ↦
        fewer-Waits s (timed_out s j p) id
          (ground (
            arith,
            waits,
            without-get s.waiters j id (keep (λ q. not (eqb q p)) (or_default (get s.waiters j) []))
                other,
          ))
          (λ h. ground (arith, h, waits)) w
    | inl here ↦ elim w [
      | inl empty ↦ ground (arith, waits, here, empty)
      | inr (q, qs, held, absent) ↦
          elim (without_self s.waiters id
            (keep (λ q. not (eqb q p)) (or_default (get s.waiters j) []))) [
              | inl gone ↦ inl (ground (arith, waits, here, gone))
              | inr (r, rs, still) ↦
                  inr (r, rs, ground (arith, waits, here, still), ground (arith, waits, absent))
            ]
    ]
  ]
]

destroy-Waits : (s : Tunnel) (m : ℕ) (id : String) → Waits id s → Waits id (destroy s m)
unfolding destroy
destroy-Waits s m id w = fewer-Waits s (destroy s m) id refl (λ h. ground (arith, h)) w

drop-Waits : (s : Tunnel) (j id : String) → Waits id s → Waits id (drop s j)
unfolding drop destroy
drop-Waits s j id w =
    fewer-Waits s (drop s j) id (ground arith)
      (λ h. ground (arith, h, eq_iff j id, get-delete s.registrations j id)) w

stream_closed-Waits :
    (s : Tunnel) (j : String) (m : ℕ) (id : String) → Waits id s → Waits id (stream_closed s j m)
unfolding stream_closed destroy
stream_closed-Waits s j m id w =
    fewer-Waits s (stream_closed s j m) id (ground arith)
      (λ h. ground (arith, h, eq_iff j id, get-delete s.registrations j id)) w

close-Waits : (s : Tunnel) (id : String) → Waits id (close s)
unfolding close
close-Waits s id = inl (get-empty {V = List ℕ} id)

register-Waits : (s : Tunnel) (j id : String) → Waits id s → Waits id (register s j)
unfolding register
register-Waits s j id w = elim (String-cases j id) [
  | inl here ↦ inl (ground (arith, here, get-delete s.waiters j id, eq_iff j id))
  | inr other ↦
      fewer-Waits s (register s j) id (get-delete_ne s.waiters j id other)
        (λ h. ground (arith, h, get-put_ne s.registrations j id s.streams other)) w
]

module _ (digest : Codes → Codes) (tokens : List Codes) where
  upgrade-Waits :
      (s : Tunnel) (r : UpgradeRequest) (id : String)
      → Waits id s
      → Waits id (upgrade digest tokens s r).1
  upgrade-Waits s r id w = elim (upgrade-cases digest tokens s r) [
    | inl same_state ↦ subst (Waits id) (sym same_state) w
    | inr (j, good, free, written) ↦ subst (Waits id) (sym written) (register-Waits s j id w)
  ]

  step-Waits :
      (s : Tunnel) (e : TunnelEvent) (id : String) → Waits id s → Waits id (step digest tokens s e)
  unfolding step
  step-Waits s (waited j) id w = wait_for-Waits s j id w
  step-Waits s (dropped j) id w = drop-Waits s j id w
  step-Waits s (gave_up j p) id w = timed_out-Waits s j p id w
  step-Waits s (closed_stream j m) id w = stream_closed-Waits s j m id w
  step-Waits s (upgraded r) id w = upgrade-Waits s r id w
  step-Waits s (probe_failed m) id w = destroy-Waits s m id w
  step-Waits s shut_down id w = close-Waits s id

  run-Waits :
      (s : Tunnel) (es : List TunnelEvent) (id : String)
      → Waits id s
      → Waits id (run digest tokens s es)
  unfolding run
  run-Waits s [] id w = w
  run-Waits s (e ∷ es) id w = run-Waits (step digest tokens s e) es id (step-Waits s e id w)

  -- After any history of a new server, a sandbox has either no entry among the waiters, or promises
  -- that wait while no live runner is registered for it.
  pub run-waiting :
      (es : List TunnelEvent) (id : String)
      → (get (run digest tokens fresh es).waiters id ≡ none)
        ⊎ ((p : ℕ) × (ps : List ℕ) × (get (run digest tokens fresh es).waiters id ≡ some (p ∷ ps))
            × (live_stream (run digest tokens fresh es) id ≡ none))
  unfolding fresh
  run-waiting es id = run-Waits fresh es id (inl (get-empty {V = List ℕ} id))
