-- ===== src/Tunnel/Upgrades.antt =====
-- What an upgrade request comes to.
use dsh_yawn.Base.{
  ◌≡◌, refl, String, Bool, true, false, ◌&&◌, ◌⊎◌, inl, inr, none, some, List, ◌==◌, arith, eq_iff,
  Option-cases, Bool-cases,
}
use dsh_yawn.Codes.{Codes}
use dsh_yawn.Tunnel.{
  Tunnel, UpgradeRequest, live_stream, parse_hello, register, accepts, admit, upgrade_hello,
  upgrade,
}

module _ (digest : Codes → Codes) (tokens : List Codes) where
  -- Whether a request asks for a sandbox with an accepted token.
  abbrev pub admits : UpgradeRequest → String → Bool
  admits r id = r.url == "/tunnel" && elim (parse_hello r) [
    | none ↦ false
    | some (j, token) ↦ accepts digest tokens token && j == id
  ]

  hello-cases :
      (s : Tunnel) (b : Bool) (id : String) (token : Codes)
      → ((upgrade_hello digest tokens s b (some (id, token))).1 ≡ s)
        ⊎ ((accepts digest tokens token ≡ true)
            × (live_stream s id ≡ none)
            × ((upgrade_hello digest tokens s b (some (id, token))).1 ≡ register s id))
  unfolding upgrade_hello admit
  hello-cases s false id token = inl (ground arith)
  hello-cases s true id token = elim (Bool-cases (accepts digest tokens token)) [
    | inr bad ↦ inl (ground (arith, bad))
    | inl good ↦ elim (Option-cases (live_stream s id)) [
      | inr (n, busy) ↦ inl (ground (arith, good, busy))
      | inl free ↦ inr (good, free, ground (arith, good, free))
    ]
  ]

  malformed_hello : (s : Tunnel) (b : Bool) → (upgrade_hello digest tokens s b none).1 ≡ s
  unfolding upgrade_hello
  malformed_hello s b = refl

  -- Every outcome of an upgrade: nothing happens, or the sandbox that had no live stream and whose
  -- request has an accepted token is registered.
  pub upgrade-cases :
      (s : Tunnel) (r : UpgradeRequest)
      → ((upgrade digest tokens s r).1 ≡ s)
        ⊎ ((id : String) × (admits r id ≡ true)
            × (live_stream s id ≡ none)
            × ((upgrade digest tokens s r).1 ≡ register s id))
  unfolding upgrade
  upgrade-cases s r = elim (Bool-cases (r.url == "/tunnel")) [
    | inr elsewhere ↦ inl (ground (arith, elsewhere))
    | inl here ↦ elim (Option-cases (parse_hello r)) [
      | inl malformed ↦ inl (ground (arith, here, malformed, malformed_hello s r.handshake))
      | inr ((id, token), hello) ↦ elim (hello-cases s r.handshake id token) [
        | inl same_state ↦ inl (ground (arith, here, hello, same_state))
        | inr (good, free, written) ↦ inr (
          id,
          ground (arith, here, hello, good, eq_iff id id),
          free,
          ground (arith, here, hello, written),
        )
      ]
    ]
  ]
