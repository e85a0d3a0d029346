-- ===== src/Attempts/Budget.antt =====
-- How many peers are tracked.
use dsh_yawn.Base.{
  ℕ, ◌+◌, ◌≤◌, ◌≡◌, ◌⊎◌, inl, inr, refl, String, Bool, true, false, List, [], ◌∷◌, length, keep,
  ltb, arith, eq_iff,
}
use dsh_yawn.Dict.{get, put, delete}
use dsh_yawn.Attempts.{
  Peers, Entry, live, drop_oldest, prune, next_entry, fail, clear, submit, after_failure,
  submit_all, max_tracked_peers,
}

length-put : (m : Peers) (k : String) (e : Entry) → length (put m k e) ≤ length m + 1
unfolding put
length-put [] k e = omega arith
length-put ((j, x) ∷ m) k e = ground (arith, length-put m k e)

length-delete : (m : Peers) (k : String) → length (delete m k) ≤ length m
unfolding delete
length-delete [] k = omega arith
length-delete ((j, x) ∷ m) k = ground (arith, length-delete m k)

length-keep : (p : String × Entry → Bool) (m : Peers) → length (keep p m) ≤ length m
length-keep p [] = omega arith
length-keep p (e ∷ m) = ground (arith, length-keep p m)

length-drop_oldest : (m : Peers) → (m ≡ []) ⊎ (length (drop_oldest m) + 1 ≤ length m)
unfolding drop_oldest delete
length-drop_oldest [] = inl refl
length-drop_oldest ((k, e) ∷ m) = inr (ground (arith, length-delete m k, eq_iff k k))

length-prune :
    (m : Peers) (now : ℕ)
    → length m ≤ max_tracked_peers
    → length (prune m now) + 1 ≤ max_tracked_peers
unfolding prune live
length-prune m now small =
    ground (arith, length-keep (λ e. ltb now e.1.reset_at) m, length-drop_oldest (live m now))

length-submit :
    (matches : Bool) (m : Peers) (peer : String) (now : ℕ)
    → length m ≤ max_tracked_peers
    → length (submit matches m peer now).1 ≤ max_tracked_peers
unfolding submit after_failure fail clear
length-submit true m peer now small = omega (arith, length-delete m peer)
length-submit false m peer now small = omega (
  arith,
  length-prune m now small,
  length-put (prune m now) peer (next_entry (get (prune m now) peer) now),
)

-- Starting from at most 1,024 tracked peers, no history of submissions, from however many addresses,
-- ever makes it more.
pub length-submit_all :
    (m : Peers) (history : List (Bool × String × ℕ))
    → length m ≤ max_tracked_peers
    → length (submit_all m history) ≤ max_tracked_peers
unfolding submit_all
length-submit_all m [] small = small
length-submit_all m ((matches, peer, now) ∷ rest) small =
    length-submit_all (submit matches m peer now).1 rest (length-submit matches m peer now small)
