-- ===== src/Attachment/Deadline.antt =====
-- How many rounds the wait for a runner takes.
use dsh_yawn.Base.{
  ℕ, suc, ◌+◌, ◌-◌, ◌*◌, ◌≤◌, ◌≡◌, refl, subst, sym, String, Bool, true, false, ltb, arith, ◌==◌,
  if◌then◌else◌,
}
use dsh_yawn.Exec.{
  Error, Result, ok, err, Exec, pure, raise, gets, catch, recover, continue, ◌>>=◌, ◌>>◌,
}
use dsh_yawn.World.{Client, Host, World, outside, outside_silent}
use dsh_yawn.Attachment.{
  at_least_one, drop, check_identity, probe, round, wait_loop, rounds, wait_for_runner,
}

-- The clock of the host does not go back, and a pause of half a second takes as long.
pub record IsClock {E : Type 0} (h : Host E) : Type 0 where
  pub waits : (id : String) (timeout : ℕ) (e : E) → h.now e ≤ h.now (h.wait_for id timeout e).1
  pub asks : (c : Client) (e : E) → h.now e ≤ h.now (h.client_health c e).1
  pub drops : (id : String) (e : E) → h.now e ≤ h.now (h.drop_runner id e)
  pub pauses : (e : E) → h.now e + 500 ≤ h.now (h.pause 500 e)

module _ {E : Type 0} (h : Host E) where
  -- An action after which the clock has not gone back, by at least `d`.
  abbrev Later : {A : Type 0} → ℕ → Exec (World E) A → Type 0
  Later d m = (w : World E) → h.now w.env + d ≤ h.now (m w).1.env

  continue-Later :
      {A B : Type 0} (f : A → Exec (World E) B)
      → ((a : A) → Later 0 (f a))
      → (r : Result A) (w : World E) → h.now w.env + 0 ≤ h.now (continue r f w).1.env
  continue-Later f later (ok a) w = later a w
  continue-Later f later (err e) w = omega arith

  bind-Later :
      {A B : Type 0} (m : Exec (World E) A) (f : A → Exec (World E) B)
      → Later 0 m
      → ((a : A) → Later 0 (f a))
      → Later 0 (m >>= f)
  unfolding ◌>>=◌
  bind-Later m f first later w = omega (arith, first w, continue-Later f later (m w).0 (m w).1)

  pure-Later : {A : Type 0} (a : A) → Later 0 (pure {S = World E} a)
  unfolding pure
  pure-Later a w = omega arith

  checked-Later :
      (b : Bool) (e : Error)
      → Later 0 (if b then pure {S = World E} tt else raise {S = World E} {A = Unit {0}} e)
  unfolding pure raise
  checked-Later true e w = omega arith
  checked-Later false e w = omega arith

  module _ (clock : IsClock h) (sandbox_id : String) where
    probe-Later : (timeout : ℕ) → Later 0 (probe h sandbox_id timeout)
    unfolding probe check_identity outside
    probe-Later timeout =
        bind-Later (outside (h.wait_for sandbox_id timeout)) _
          (λ w. omega (arith, clock.waits sandbox_id timeout w.env))
          (λ client.
            bind-Later (check_identity h client sandbox_id) _
              (bind-Later (outside (h.client_health client)) _
                (λ w. omega (arith, clock.asks client w.env))
                (λ reported. checked-Later (reported == sandbox_id) _))
              (λ _. pure-Later client))

    -- Two ways to go on that agree half a second later.
    module _ (rest other : Exec (World E) Client) (w : World E)
        (agree : (v : World E) → h.now w.env + 500 ≤ h.now v.env → rest v ≡ other v) where
      pause_then : Exec (World E) Client → Exec (World E) Client
      pause_then next = do drop h sandbox_id; outside_silent (h.pause 500); next

      recover-agree :
          (r : Result Client) (v : World E)
          → h.now w.env ≤ h.now v.env
          → recover r (λ _. pause_then rest) v ≡ recover r (λ _. pause_then other) v
      unfolding pause_then ◌>>=◌ drop outside_silent
      recover-agree (ok c) v e = refl
      recover-agree (err x) v e =
          agree (record v { env = h.pause 500 (h.drop_runner sandbox_id v.env) })
            (omega (
              arith,
              e,
              clock.drops sandbox_id v.env,
              clock.pauses (h.drop_runner sandbox_id v.env),
            ))

      round-agree :
          (b : Bool) (timeout : ℕ)
          → round h b sandbox_id timeout rest w ≡ round h b sandbox_id timeout other w
      unfolding round catch pause_then
      round-agree false timeout = refl
      round-agree true timeout =
          recover-agree (probe h sandbox_id timeout w).0 (probe h sandbox_id timeout w).1
            (omega (arith, probe-Later timeout w))

    late-agree :
        (rest other : Exec (World E) Client) (timeout deadline : ℕ) (w : World E)
        → deadline ≤ h.now w.env
        → round h (ltb (h.now w.env) deadline) sandbox_id timeout rest w
          ≡ round h (ltb (h.now w.env) deadline) sandbox_id timeout other w
    unfolding round
    late-agree rest other timeout deadline w e =
        let late : ltb (h.now w.env) deadline ≡ false = ground (arith, e) in
        subst (λ b. round h b sandbox_id timeout rest w ≡ round h b sandbox_id timeout other w)
          (sym late) refl

    -- Any two amounts of fuel that last until the deadline.
    wait_loop-agree :
        (n f g deadline : ℕ) (w : World E)
        → n ≤ f
        → n ≤ g
        → deadline ≤ h.now w.env + n * 500
        → wait_loop h (suc f) sandbox_id deadline w ≡ wait_loop h (suc g) sandbox_id deadline w
    unfolding wait_loop ◌>>=◌ gets
    wait_loop-agree ℕ.zero f g deadline w a b e =
        late-agree (wait_loop h f sandbox_id deadline) (wait_loop h g sandbox_id deadline)
          (at_least_one (deadline - h.now w.env)) deadline w (omega (arith, e))
    wait_loop-agree (ℕ.suc n) ℕ.zero g deadline w a b e = ground (arith, a)
    wait_loop-agree (ℕ.suc n) (ℕ.suc f) ℕ.zero deadline w a b e = ground (arith, b)
    wait_loop-agree (ℕ.suc n) (ℕ.suc f) (ℕ.suc g) deadline w a b e =
        round-agree (wait_loop h (suc f) sandbox_id deadline)
          (wait_loop h (suc g) sandbox_id deadline) w
          (λ v later.
            wait_loop-agree n f g deadline v (omega (arith, a)) (omega (arith, b))
              (omega (arith, e, later)))
          (ltb (h.now w.env) deadline) (at_least_one (deadline - h.now w.env))

    -- Where the clock does not go back and a pause of half a second takes as long, the 121 rounds of
    -- the wait for a runner are enough: any more fuel gives the same result.
    pub wait_for_runner-enough :
        (fuel : ℕ) (w : World E)
        → rounds h ≤ fuel
        → wait_loop h fuel sandbox_id (h.now w.env + 60000) w ≡ wait_for_runner h sandbox_id w
    unfolding wait_for_runner ◌>>=◌ gets rounds
    wait_for_runner-enough ℕ.zero w e = ground (arith, e)
    wait_for_runner-enough (ℕ.suc fuel) w e =
        wait_loop-agree 120 fuel 120 (h.now w.env + 60000) w (omega (arith, e)) (omega arith)
          (omega arith)
