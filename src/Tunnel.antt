-- ===== src/Tunnel.antt =====
-- control-plane/src/core/tunnel.ts: the server that runners dial, its table of registered runners and
-- the calls that wait for one. A stream is a number, and its client has the same number; a promise is
-- a number too. The digest is the one of Node's crypto module, and the answer of the WebSocket
-- library to a handshake comes with the request.
pub mod Upgrades
pub mod Registered
pub mod Admitted
pub mod Waiting
use dsh_yawn.Base.{
  ℕ, ◌+◌, String, Bool, true, false, not, ◌&&◌, ◌||◌, Option, none, some, List, [], ◌∷◌, ◌++◌, map,
  length, any, keep, eqb, ltb, leb, or_default, if◌then◌else◌, ◌==◌,
}
use dsh_yawn.Dict.{Dict, get, put, delete, values}
use dsh_yawn.Codes.{Codes, codes, same, strip_prefix, trim}

-- `settled` holds the client that a promise was resolved with, or none where it timed out.
pub record Tunnel : Type 0 where
  pub registrations : Dict ℕ
  pub waiters : Dict (List ℕ)
  pub destroyed : List ℕ
  pub settled : List (ℕ × Option ℕ)
  pub streams : ℕ
  pub promises : ℕ

unfoldable pub fresh : Tunnel
fresh = record {
  registrations = [];
  waiters = [];
  destroyed = [];
  settled = [];
  streams = 0;
  promises = 0;
}

-- An upgrade request: its headers, and whether the WebSocket library completes the handshake.
pub record UpgradeRequest : Type 0 where
  pub url : String
  pub authorization : Option String
  pub sandbox_id : Option String
  pub handshake : Bool

-- A plain HTTP error, a registered stream, or the library's own refusal.
pub data UpgradeAnswer : Type 0 where
  rejected : ℕ → UpgradeAnswer
  registered : ℕ → UpgradeAnswer
  refused : UpgradeAnswer

abbrev pub is_destroyed : Tunnel → ℕ → Bool
is_destroyed s n = any (eqb n) s.destroyed

-- `existing !== undefined && !existing.stream.destroyed`
abbrev pub live_stream : Tunnel → String → Option ℕ
live_stream s id = elim (get s.registrations id) [
  | none ↦ none
  | some n ↦ if is_destroyed s n then none else some n
]

pub destroy : Tunnel → ℕ → Tunnel
destroy s n = record s { destroyed = n ∷ s.destroyed }

unfoldable pub settle_all : List ℕ → Option ℕ → List (ℕ × Option ℕ)
settle_all ps outcome = map (λ p. (p, outcome)) ps

-- The promise is the one numbered `promises` before the call.
unfoldable pub wait_for : Tunnel → String → Tunnel
wait_for s id = elim (live_stream s id) [
  | some n ↦ record s {
    settled = s.settled ++ (s.promises, some n) ∷ [];
    promises = s.promises + 1;
  }
  | none ↦ record s {
    waiters = put s.waiters id (or_default (get s.waiters id) [] ++ s.promises ∷ []);
    promises = s.promises + 1;
  }
]

-- The set without the waiter that gave up; the last of them takes the set along.
pub without : Dict (List ℕ) → String → List ℕ → Dict (List ℕ)
without waiters id [] = delete waiters id
without waiters id (p ∷ ps) = put waiters id (p ∷ ps)

-- A timer fires only for a promise that still waits: it is cleared with the set.
pub timed_out : Tunnel → String → ℕ → Tunnel
timed_out s id p =
    let waiting = or_default (get s.waiters id) [] in
    if any (eqb p) waiting
    then record s {
      waiters = without s.waiters id (keep (λ q. not (eqb q p)) waiting);
      settled = s.settled ++ (p, none) ∷ [];
    }
    else s

unfoldable pub drop : Tunnel → String → Tunnel
drop s id = elim (get s.registrations id) [
  | none ↦ s
  | some n ↦ destroy (record s { registrations = delete s.registrations id }) n
]

bearer : Codes
bearer = b'B' ∷ b'e' ∷ b'a' ∷ b'r' ∷ b'e' ∷ b'r' ∷ 32 ∷ []

token_of : Option Codes → Codes
token_of none = []
token_of (some rest) = trim rest

checked_hello : Option String → Codes → Option (String × Codes)
checked_hello none token = none
checked_hello (some id) token =
    if eqb (length token) 0 || (eqb (length (codes id)) 0 || ltb 256 (length (codes id)))
    then none
    else some (id, token)

unfoldable pub parse_hello : UpgradeRequest → Option (String × Codes)
unfolding bearer token_of checked_hello
parse_hello r =
    checked_hello r.sandbox_id
      (token_of (strip_prefix bearer (codes (or_default r.authorization ""))))

unfoldable pub register : Tunnel → String → Tunnel
register s id = record s {
  registrations = put s.registrations id s.streams;
  streams = s.streams + 1;
  waiters = delete s.waiters id;
  settled = s.settled ++ settle_all (or_default (get s.waiters id) []) (some s.streams);
}

-- The close handler of a registered stream, which the stream is destroyed by then.
pub stream_closed : Tunnel → String → ℕ → Tunnel
stream_closed s id n =
    let gone = destroy s n in
    elim (get gone.registrations id) [
      | none ↦ gone
      | some m ↦
          if eqb m n then record gone { registrations = delete gone.registrations id } else gone
    ]

pub close : Tunnel → Tunnel
close s = record s {
  waiters = [];
  destroyed = values s.registrations ++ s.destroyed;
  registrations = [];
}

-- What happens to the server: calls of its methods, timers, closed streams, upgrade requests and
-- health probes that fail.
pub data TunnelEvent : Type 0 where
  waited dropped : String → TunnelEvent
  gave_up closed_stream : String → ℕ → TunnelEvent
  upgraded : UpgradeRequest → TunnelEvent
  probe_failed : ℕ → TunnelEvent
  shut_down : TunnelEvent

-- `tokens` are the registration tokens of the configuration, none of them empty.
module _ (digest : Codes → Codes) (tokens : List Codes) where
  unfoldable pub accepts : Codes → Bool
  accepts token = any (λ d. same d (digest token)) (map digest tokens)

  unfoldable pub admit : Tunnel → String → Bool → UpgradeAnswer × Tunnel
  admit s id false = (refused, s)
  admit s id true = (registered s.streams, register s id)

  unfoldable pub upgrade_hello : Tunnel → Bool → Option (String × Codes) → UpgradeAnswer × Tunnel
  upgrade_hello s handshake none = (rejected 400, s)
  upgrade_hello s handshake (some (id, token)) =
      if not (accepts token)
      then (rejected 401, s)
      else elim (live_stream s id) [ some n ↦ (rejected 409, s) | none ↦ admit s id handshake ]

  unfoldable pub upgrade : Tunnel → UpgradeRequest → UpgradeAnswer × Tunnel
  upgrade s r =
      if not (r.url == "/tunnel")
      then (rejected 404, s)
      else upgrade_hello s r.handshake (parse_hello r)

  unfoldable pub step : Tunnel → TunnelEvent → Tunnel
  step s (waited id) = wait_for s id
  step s (dropped id) = drop s id
  step s (gave_up id p) = timed_out s id p
  step s (closed_stream id n) = stream_closed s id n
  step s (upgraded r) = (upgrade s r).1
  step s (probe_failed n) = destroy s n
  step s shut_down = close s

  unfoldable pub run : Tunnel → List TunnelEvent → Tunnel
  run s [] = s
  run s (e ∷ es) = run (step s e) es
