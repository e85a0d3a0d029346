-- ===== src/Checkpoint/Script.antt =====
-- What a run of a script must have looked like for its output to be used.
use mathlib.Core.List.{append-nil, append_assoc}
use dsh_yawn.Base.{
  ℕ, ◌+◌, ◌≤◌, ◌≡◌, sym, ap, ◌∙◌, ◌↔◌, Bool, true, false, List, [], ◌∷◌, ◌++◌, arith, length,
  length-append,
}
use dsh_yawn.Exec.{ok}
use dsh_yawn.Records.{Bytes}
use dsh_yawn.Checkpoint.{ExecEvent, stdout, stderr, exited, other, broken, drain}

-- The bytes of the stdout events, in order.
abbrev pub printed : List ExecEvent → Bytes
printed [] = []
printed (stdout bytes ∷ es) = bytes ++ printed es
printed (_ ∷ es) = printed es

-- The stream did not break and every exit status it reported is 0.
abbrev pub IsClean : List ExecEvent → Type 0
IsClean [] = Unit {0}
IsClean (exited code ∷ es) = (code ≡ 0) × IsClean es
IsClean (broken e ∷ es) = ⊥
IsClean (_ ∷ es) = IsClean es

-- The stream reported an exit.
abbrev pub HasExit : List ExecEvent → Type 0
HasExit [] = ⊥
HasExit (exited code ∷ es) = Unit {0}
HasExit (_ ∷ es) = HasExit es

abbrev Exited : Bool → List ExecEvent → Type 0
Exited true es = Unit {0}
Exited false es = HasExit es

drain_sound :
    (cap : ℕ) (out : Bytes) (done : Bool) (es : List ExecEvent) (r : Bytes)
    → length out ≤ cap
    → drain cap out done es ≡ ok r
    → (r ≡ out ++ printed es) × IsClean es × Exited done es × (length r ≤ cap)
unfolding drain
drain_sound cap out true [] r fits h = ground (arith, append-nil out)
drain_sound cap out false [] r fits h = cc
drain_sound cap out true (stdout bytes ∷ es) r fits h = ground (
  arith,
  length-append out bytes,
  append_assoc out bytes (printed es),
  drain_sound cap (out ++ bytes) true es r,
)
drain_sound cap out false (stdout bytes ∷ es) r fits h = ground (
  arith,
  length-append out bytes,
  append_assoc out bytes (printed es),
  drain_sound cap (out ++ bytes) false es r,
)
drain_sound cap out true (exited code ∷ es) r fits h =
    ground (arith, drain_sound cap out true es r fits)
drain_sound cap out false (exited code ∷ es) r fits h =
    ground (arith, drain_sound cap out true es r fits)
drain_sound cap out true (stderr bytes ∷ es) r fits h = drain_sound cap out true es r fits h
drain_sound cap out false (stderr bytes ∷ es) r fits h = drain_sound cap out false es r fits h
drain_sound cap out true (other ∷ es) r fits h = drain_sound cap out true es r fits h
drain_sound cap out false (other ∷ es) r fits h = drain_sound cap out false es r fits h
drain_sound cap out true (broken e ∷ es) r fits h = cc
drain_sound cap out false (broken e ∷ es) r fits h = cc

drain_complete :
    (cap : ℕ) (out : Bytes) (done : Bool) (es : List ExecEvent)
    → length out + length (printed es) ≤ cap
    → IsClean es
    → Exited done es
    → drain cap out done es ≡ ok (out ++ printed es)
unfolding drain
drain_complete cap out true [] fits clean exit = ground (arith, append-nil out)
drain_complete cap out false [] fits clean exit = absurd exit
drain_complete cap out true (stdout bytes ∷ es) fits clean exit = ground (
  arith,
  length-append out bytes,
  length-append bytes (printed es),
  append_assoc out bytes (printed es),
  drain_complete cap (out ++ bytes) true es,
  clean,
)
drain_complete cap out false (stdout bytes ∷ es) fits clean exit =
    rw (← append_assoc out bytes (printed es)) (
      ground (
        arith,
        length-append out bytes,
        length-append bytes (printed es),
        drain_complete cap (out ++ bytes) false es
            (omega (arith, length-append out bytes, length-append bytes (printed es))) clean exit,
      ))
drain_complete cap out true (exited code ∷ es) fits clean exit =
    ground (arith, clean.0, drain_complete cap out true es fits clean.1 tt)
drain_complete cap out false (exited code ∷ es) fits clean exit =
    ground (arith, clean.0, drain_complete cap out true es fits clean.1 tt)
drain_complete cap out true (stderr bytes ∷ es) fits clean exit =
    drain_complete cap out true es fits clean exit
drain_complete cap out false (stderr bytes ∷ es) fits clean exit =
    drain_complete cap out false es fits clean exit
drain_complete cap out true (other ∷ es) fits clean exit =
    drain_complete cap out true es fits clean exit
drain_complete cap out false (other ∷ es) fits clean exit =
    drain_complete cap out false es fits clean exit
drain_complete cap out true (broken e ∷ es) fits clean exit = absurd clean
drain_complete cap out false (broken e ∷ es) fits clean exit = absurd clean

-- The output of a script is used exactly if its stream did not break, reported an exit, reported no
-- status but 0, and printed at most the limit; it is then all that was printed, in order.
pub drain_iff :
    (cap : ℕ) (es : List ExecEvent) (r : Bytes)
    → (drain cap [] false es ≡ ok r)
      ↔ ((r ≡ printed es) × IsClean es × HasExit es × (length r ≤ cap))
drain_iff cap es r = (
  λ h. drain_sound cap [] false es r (omega arith) h,
  λ h. drain_complete cap [] false es (omega (arith, ap length h.0)) h.1 h.2 ∙ ap ok (sym h.0),
)
