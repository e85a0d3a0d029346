-- ===== src/Attempts.antt =====
-- control-plane/src/auth/passcode-auth.ts, class `Attempts`: one fixed-window budget of failed logins
-- per peer address. The form, the cookie and the page around it are not modelled.
pub mod Budget
use dsh_yawn.Base.{
  ℕ, ◌+◌, ◌-◌, ◌/◌, ◌≡◌, String, Bool, true, false, Option, none, some, List, [], ◌∷◌, length, keep,
  ltb, leb, if◌then◌else◌,
}
use dsh_yawn.Dict.{Dict, get, put, delete}

abbrev pub max_attempts : ℕ
max_attempts = 10

abbrev pub attempt_window_ms : ℕ
attempt_window_ms = 900000

abbrev pub max_tracked_peers : ℕ
max_tracked_peers = 1024

pub record Entry : Type 0 where
  pub count : ℕ
  pub reset_at : ℕ

abbrev pub Peers : Type 0
Peers = Dict Entry

-- The peers whose budget is still running.
live : Peers → ℕ → Peers
live m now = keep (λ e. ltb now e.1.reset_at) m

drop_oldest : Peers → Peers
drop_oldest [] = []
drop_oldest ((peer, e) ∷ m) = delete ((peer, e) ∷ m) peer

pub prune : Peers → ℕ → Peers
unfolding live drop_oldest
prune m now =
    if ltb (length m) max_tracked_peers
    then m
    else if leb max_tracked_peers (length (live m now))
    then drop_oldest (live m now)
    else live m now

-- The entry after one more failure: a budget that ran out starts again.
next_entry : Option Entry → ℕ → Entry
next_entry none now = record { count = 1; reset_at = now + attempt_window_ms }
next_entry (some e) now =
    if ltb now e.reset_at
    then record { count = e.count + 1; reset_at = e.reset_at }
    else record { count = 1; reset_at = now + attempt_window_ms }

-- The seconds to wait, rounded up, or 0.
wait_seconds : Entry → ℕ → ℕ
wait_seconds e now = if leb max_attempts e.count then seconds (e.reset_at - now) else 0
  where
    seconds : ℕ → ℕ
    seconds ms = (ms + 999) / 1000

pub fail : Peers → String → ℕ → ℕ × Peers
unfolding prune next_entry wait_seconds
fail m peer now =
    let pruned = prune m now in
    let e = next_entry (get pruned peer) now in (wait_seconds e now, put pruned peer e)

pub clear : Peers → String → Peers
clear m peer = delete m peer

-- What the form's handler makes of one submitted passcode.
pub data Answer : Type 0 where
  signed_in : Answer
  wrong_passcode : Answer
  too_many : ℕ → Answer

after_failure : ℕ × Peers → Answer × Peers
after_failure (wait, m) = ((if ltb 0 wait then too_many wait else wrong_passcode), m)

pub submit : Bool → Peers → String → ℕ → Answer × Peers
unfolding after_failure fail clear
submit true m peer now = (signed_in, clear m peer)
submit false m peer now = after_failure (fail m peer now)

-- A history of submissions: whether the passcode matched, the peer and the time of each.
pub submit_all : Peers → List (Bool × String × ℕ) → Peers
unfolding submit
submit_all m [] = m
submit_all m ((matches, peer, now) ∷ rest) = submit_all (submit matches m peer now).1 rest
