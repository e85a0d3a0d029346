-- ===== src/Examples/Logins.antt =====
-- Runs of the budget of failed logins.
use dsh_yawn.Base.{ℕ, ◌≤◌, String, Bool, true, false, List, [], ◌∷◌, length, arith}
use dsh_yawn.Attempts.{Peers, Entry, submit_all, max_tracked_peers}
use dsh_yawn.Attempts.Budget.{length-submit_all}

abbrev budget : Entry
budget = record { count = 1; reset_at = 900000 }

abbrev peers : Peers
peers = ("10.0.0.1", budget) ∷ []

-- A wrong passcode from a new address, then a right one from the old.
abbrev history : List (Bool × String × ℕ)
history = (false, "10.0.0.2", 5) ∷ (true, "10.0.0.1", 6) ∷ []

length-submit_all_example : length (submit_all peers history) ≤ max_tracked_peers
length-submit_all_example = length-submit_all peers history (omega arith)
