-- ===== src/Examples/Tunnels.antt =====
-- A runner that registers, and one that tries to take its place.
use dsh_yawn.Base.{ℕ, ◌≡◌, ◌⊎◌, refl, true, false, none, some, List, [], ◌∷◌, any}
use dsh_yawn.Dict.{get, put, delete}
use dsh_yawn.Codes.{Codes, codes, same, strip_prefix, trim, trim_start, trim_end, is_space}
use dsh_yawn.Tunnel.{
  Tunnel, fresh, UpgradeRequest, is_destroyed, live_stream, wait_for, parse_hello, register,
  settle_all, waited, upgraded, accepts, admit, upgrade_hello, upgrade, step, run,
}
use dsh_yawn.Tunnel.Registered.{run-registered}
use dsh_yawn.Tunnel.Admitted.{run-admitted, event_admits}
use dsh_yawn.Tunnel.Waiting.{run-waiting}

abbrev plain : Codes → Codes
plain cs = cs

abbrev tokens : List Codes
tokens = (b'k' ∷ []) ∷ []

abbrev dial : UpgradeRequest
dial = record {
  url = "/tunnel";
  authorization = some "Bearer k";
  sandbox_id = some "box";
  handshake = true;
}

abbrev connected : Tunnel
connected = record {
  registrations = ("box", 0) ∷ [];
  waiters = [];
  destroyed = [];
  settled = [];
  streams = 1;
  promises = 0;
}

connected-held : get connected.registrations "box" ≡ some 0
unfolding get
connected-held = refl

connected-alive :
    is_destroyed (run plain tokens connected (upgraded dial ∷ waited "box" ∷ [])) 0 ≡ false
unfolding run step upgrade upgrade_hello admit accepts parse_hello codes strip_prefix trim
    trim_start trim_end is_space same register wait_for get put delete settle_all
connected-alive = refl

run-registered_example :
    get (run plain tokens connected (upgraded dial ∷ waited "box" ∷ [])).registrations "box"
    ≡ some 0
run-registered_example =
    run-registered plain tokens connected (upgraded dial ∷ waited "box" ∷ []) "box" 0 connected-held
      connected-alive

dialed :
    get (run plain tokens fresh (waited "box" ∷ upgraded dial ∷ [])).registrations "box" ≡ some 0
unfolding fresh run step upgrade upgrade_hello admit accepts parse_hello codes strip_prefix trim
    trim_start trim_end is_space same register wait_for get put delete settle_all
dialed = refl

run-admitted_example :
    any (λ e. event_admits plain tokens e "box") (waited "box" ∷ upgraded dial ∷ []) ≡ true
run-admitted_example = run-admitted plain tokens (waited "box" ∷ upgraded dial ∷ []) "box" 0 dialed

run-waiting_example :
    (get (run plain tokens fresh (waited "box" ∷ [])).waiters "box" ≡ none)
    ⊎ ((p : ℕ) × (ps : List ℕ) × (get (run plain tokens fresh (waited "box" ∷ [])).waiters "box"
          ≡ some (p ∷ ps))
        × (live_stream (run plain tokens fresh (waited "box" ∷ [])) "box" ≡ none))
run-waiting_example = run-waiting plain tokens (waited "box" ∷ []) "box"

-- The call that waited got the runner.
dialed-settled :
    (run plain tokens fresh (waited "box" ∷ upgraded dial ∷ [])).settled ≡ (0, some 0) ∷ []
unfolding fresh run step upgrade upgrade_hello admit accepts parse_hello codes strip_prefix trim
    trim_start trim_end is_space same register wait_for get put delete settle_all
dialed-settled = refl
