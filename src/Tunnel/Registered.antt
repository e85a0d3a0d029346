-- ===== src/Tunnel/Registered.antt =====
-- Nobody takes a live runner's place.
use dsh_yawn.Base.{
  ℕ, ◌≡◌, refl, sym, subst, String, Bool, true, false, ◌||◌, ◌⊎◌, inl, inr, none, some, List, [],
  ◌∷◌, ◌++◌, any, eqb, arith, eq_iff, Bool-cases,
}
use dsh_yawn.Dict.{Dict, get, values, get-put, get-delete}
use dsh_yawn.Codes.{Codes}
use dsh_yawn.Tunnel.{
  Tunnel, UpgradeRequest, is_destroyed, live_stream, destroy, wait_for, timed_out, drop, register,
  stream_closed, close, TunnelEvent, waited, dropped, gave_up, closed_stream, upgraded,
  probe_failed, shut_down, upgrade, step, run,
}
use dsh_yawn.Tunnel.Upgrades.{upgrade-cases}

-- The sandbox's registration is the stream `n`, unless that stream was destroyed.
abbrev Kept : String → ℕ → Tunnel → Type 0
Kept id n s = (is_destroyed s n ≡ true) ⊎ (get s.registrations id ≡ some n)

any-append : (p : ℕ → Bool) (xs ys : List ℕ) → any p (xs ++ ys) ≡ (any p xs || any p ys)
any-append p [] ys = refl
any-append p (x ∷ xs) ys = ground (arith, any-append p xs ys)

any-values : (m : Dict ℕ) (id : String) (n : ℕ) → get m id ≡ some n → any (eqb n) (values m) ≡ true
unfolding get
any-values [] id n h = ground (arith, h)
any-values ((k, v) ∷ m) id n h = ground (arith, h, any-values m id n)

Kept-alive :
    (id : String) (n : ℕ) (s : Tunnel)
    → (is_destroyed s n ≡ false → get s.registrations id ≡ some n)
    → Kept id n s
Kept-alive id n s h = elim (Bool-cases (is_destroyed s n)) [
  | inl gone ↦ inl gone
  | inr alive ↦ inr (h alive)
]

wait_for-Kept : (s : Tunnel) (j id : String) (n : ℕ) → Kept id n s → Kept id n (wait_for s j)
unfolding wait_for
wait_for-Kept s j id n (inl gone) = inl (ground (arith, gone))
wait_for-Kept s j id n (inr held) = inr (ground (arith, held))

timed_out-Kept :
    (s : Tunnel) (j : String) (p : ℕ) (id : String) (n : ℕ)
    → Kept id n s
    → Kept id n (timed_out s j p)
unfolding timed_out
timed_out-Kept s j p id n (inl gone) = inl (ground (arith, gone))
timed_out-Kept s j p id n (inr held) = inr (ground (arith, held))

destroy-Kept : (s : Tunnel) (m : ℕ) (id : String) (n : ℕ) → Kept id n s → Kept id n (destroy s m)
unfolding destroy
destroy-Kept s m id n (inl gone) = inl (ground (arith, gone))
destroy-Kept s m id n (inr held) = inr held

drop-Kept : (s : Tunnel) (j id : String) (n : ℕ) → Kept id n s → Kept id n (drop s j)
unfolding drop destroy
drop-Kept s j id n (inl gone) = inl (ground (arith, gone))
drop-Kept s j id n (inr held) =
    Kept-alive id n (drop s j)
      (λ alive. ground (arith, held, alive, eq_iff j id, get-delete s.registrations j id))

stream_closed-Kept :
    (s : Tunnel) (j : String) (m : ℕ) (id : String) (n : ℕ)
    → Kept id n s
    → Kept id n (stream_closed s j m)
unfolding stream_closed destroy
stream_closed-Kept s j m id n (inl gone) = inl (ground (arith, gone))
stream_closed-Kept s j m id n (inr held) =
    Kept-alive id n (stream_closed s j m)
      (λ alive. ground (arith, held, alive, eq_iff j id, get-delete s.registrations j id))

close-Kept : (s : Tunnel) (id : String) (n : ℕ) → Kept id n s → Kept id n (close s)
unfolding close
close-Kept s id n (inl gone) =
    inl (ground (arith, gone, any-append (eqb n) (values s.registrations) s.destroyed))
close-Kept s id n (inr held) = inl (
    ground (
      arith,
      any-values s.registrations id n held,
      any-append (eqb n) (values s.registrations) s.destroyed,
    ))

-- A registration is written only where there is no live one.
register-Kept :
    (s : Tunnel) (j id : String) (n : ℕ)
    → live_stream s j ≡ none
    → Kept id n s
    → Kept id n (register s j)
unfolding register
register-Kept s j id n free (inl gone) = inl gone
register-Kept s j id n free (inr held) = Kept-alive id n (register s j) (λ alive.
    ground (arith, held, alive, free, eq_iff j id, get-put s.registrations j id s.streams))

module _ (digest : Codes → Codes) (tokens : List Codes) where
  upgrade-Kept :
      (s : Tunnel) (r : UpgradeRequest) (id : String) (n : ℕ)
      → Kept id n s
      → Kept id n (upgrade digest tokens s r).1
  upgrade-Kept s r id n k = elim (upgrade-cases digest tokens s r) [
    | inl same_state ↦ subst (Kept id n) (sym same_state) k
    | inr (j, good, free, written) ↦ subst (Kept id n) (sym written) (register-Kept s j id n free k)
  ]

  step-Kept :
      (s : Tunnel) (e : TunnelEvent) (id : String) (n : ℕ)
      → Kept id n s
      → Kept id n (step digest tokens s e)
  unfolding step
  step-Kept s (waited j) id n k = wait_for-Kept s j id n k
  step-Kept s (dropped j) id n k = drop-Kept s j id n k
  step-Kept s (gave_up j p) id n k = timed_out-Kept s j p id n k
  step-Kept s (closed_stream j m) id n k = stream_closed-Kept s j m id n k
  step-Kept s (upgraded r) id n k = upgrade-Kept s r id n k
  step-Kept s (probe_failed m) id n k = destroy-Kept s m id n k
  step-Kept s shut_down id n k = close-Kept s id n k

  run-Kept :
      (s : Tunnel) (es : List TunnelEvent) (id : String) (n : ℕ)
      → Kept id n s
      → Kept id n (run digest tokens s es)
  unfolding run
  run-Kept s [] id n k = k
  run-Kept s (e ∷ es) id n k = run-Kept (step digest tokens s e) es id n (step-Kept s e id n k)

  -- Whatever requests, with whatever tokens, and whatever else follow, the stream that is registered
  -- for a sandbox stays the one that is registered for it until that stream is destroyed.
  pub run-registered :
      (s : Tunnel) (es : List TunnelEvent) (id : String) (n : ℕ)
      → get s.registrations id ≡ some n
      → is_destroyed (run digest tokens s es) n ≡ false
      → get (run digest tokens s es).registrations id ≡ some n
  run-registered s es id n held alive = elim (run-Kept s es id n (inr held)) [
    | inl gone ↦ ground (arith, gone, alive)
    | inr still ↦ still
  ]
