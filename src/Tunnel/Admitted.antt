-- ===== src/Tunnel/Admitted.antt =====
-- Nobody is registered without an accepted token.
use dsh_yawn.Base.{
  ℕ, ◌≡◌, subst, String, Bool, true, false, ◌⊎◌, inl, inr, some, List, [], ◌∷◌, any, is_some, arith,
  eq_iff, String-cases,
}
use dsh_yawn.Dict.{get, get-delete, get-empty, get-put_ne}
use dsh_yawn.Codes.{Codes}
use dsh_yawn.Tunnel.{
  Tunnel, fresh, destroy, wait_for, timed_out, drop, register, stream_closed, close, TunnelEvent,
  waited, dropped, gave_up, closed_stream, upgraded, probe_failed, shut_down, step, run,
}
use dsh_yawn.Tunnel.Upgrades.{upgrade-cases, admits}

register_other :
    (s : Tunnel) (j id : String)
    → ¬ (j ≡ id)
    → is_some (get (register s j).registrations id) ≡ true
    → is_some (get s.registrations id) ≡ true
unfolding register
register_other s j id other h = ground (arith, h, get-put_ne s.registrations j id s.streams other)

module _ (digest : Codes → Codes) (tokens : List Codes) where
  abbrev pub event_admits : TunnelEvent → String → Bool
  event_admits (upgraded r) id = admits digest tokens r id
  event_admits _ id = false

  -- A registration that a step leaves was there before, or its request was admitted.
  step-admitted :
      (s : Tunnel) (e : TunnelEvent) (id : String)
      → is_some (get (step digest tokens s e).registrations id) ≡ true
      → (event_admits e id ≡ true) ⊎ (is_some (get s.registrations id) ≡ true)
  unfolding step wait_for drop timed_out stream_closed destroy close
  step-admitted s (waited j) id h = inr (ground (arith, h))
  step-admitted s (dropped j) id h =
      inr (ground (arith, h, eq_iff j id, get-delete s.registrations j id))
  step-admitted s (gave_up j p) id h = inr (ground (arith, h))
  step-admitted s (closed_stream j m) id h =
      inr (ground (arith, h, eq_iff j id, get-delete s.registrations j id))
  step-admitted s (upgraded r) id h = elim (upgrade-cases digest tokens s r) [
    | inl same_state ↦ inr (ground (arith, h, same_state))
    | inr (j, good, free, written) ↦ elim (String-cases j id) [
      | inl here ↦ inl (subst (λ i. admits digest tokens r i ≡ true) here good)
      | inr other ↦ inr (register_other s j id other (ground (arith, h, written)))
    ]
  ]
  step-admitted s (probe_failed m) id h = inr h
  step-admitted s shut_down id h = ground (arith, h, get-empty {V = ℕ} id)

  run-admitted_from :
      (s : Tunnel) (es : List TunnelEvent) (id : String)
      → is_some (get (run digest tokens s es).registrations id) ≡ true
      → (any (λ e. event_admits e id) es ≡ true) ⊎ (is_some (get s.registrations id) ≡ true)
  unfolding run
  run-admitted_from s [] id h = inr h
  run-admitted_from s (e ∷ es) id h = elim (run-admitted_from (step digest tokens s e) es id h) [
    | inl later ↦ inl (ground (arith, later))
    | inr before ↦ elim (step-admitted s e id before) [
      | inl now ↦ inl (ground (arith, now))
      | inr earlier ↦ inr earlier
    ]
  ]

  -- A sandbox that is registered after any history of a new server was asked for in it by an
  -- upgrade request at `/tunnel` with an accepted token.
  pub run-admitted :
      (es : List TunnelEvent) (id : String) (n : ℕ)
      → get (run digest tokens fresh es).registrations id ≡ some n
      → any (λ e. event_admits e id) es ≡ true
  unfolding fresh
  run-admitted es id n h = elim (run-admitted_from fresh es id (ground (arith, h))) [
    | inl later ↦ later
    | inr never ↦ ground (arith, never, get-empty {V = ℕ} id)
  ]
