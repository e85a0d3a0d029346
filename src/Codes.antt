-- ===== src/Codes.antt =====
-- Texts as lists of code units, and what the source uses of JavaScript's strings and regular
-- expressions on them. `toLowerCase` is the one of ASCII and Latin-1, which is what headers carry.
pub mod Decimal
pub mod Splits
pub mod Tables
use Prim.Native.String.{String}
use Prim.Native.String
use Prim.Native.Char.{code}
use dsh_yawn.Base.{
  ℕ, ◌+◌, ◌≡◌, refl, ◌↔◌, Bool, true, false, not, ◌&&◌, ◌||◌, Option, none, some, List, [], ◌∷◌,
  ◌++◌, map, every, any, All, eqb, leb, ltb, if◌then◌else◌, arith, Bool-cases, inl, inr,
}

abbrev pub Codes : Type 0
Codes = List ℕ

-- The codes of a text.
unfoldable pub codes : String → Codes
codes String.[] = []
codes (String.◌∷◌ c s) = code c ∷ codes s

unfoldable pub is_digit : ℕ → Bool
is_digit c = leb b'0' c && leb c b'9'

unfoldable pub is_lower : ℕ → Bool
is_lower c = leb b'a' c && leb c b'z'

unfoldable pub is_upper : ℕ → Bool
is_upper c = leb b'A' c && leb c b'Z'

-- `toLowerCase`
unfoldable pub lower_code : ℕ → ℕ
unfolding is_upper
lower_code c = if is_upper c || (leb 192 c && (leb c 222 && not (eqb c 215))) then c + 32 else c

abbrev pub lower : Codes → Codes
lower = map lower_code

-- White space of `trim`.
unfoldable pub is_space : ℕ → Bool
is_space c =
    (leb 9 c && leb c 13)
    || any (eqb c) (32 ∷ 160 ∷ 5760 ∷ 8232 ∷ 8233 ∷ 8239 ∷ 8287 ∷ 12288 ∷ 65279 ∷ [])
    || (leb 8192 c && leb c 8202)

unfoldable pub trim_start : Codes → Codes
trim_start [] = []
trim_start (c ∷ cs) = let rest = trim_start cs in if is_space c then rest else c ∷ cs

unfoldable pub trim_end : Codes → Codes
trim_end [] = []
trim_end (c ∷ cs) = elim (trim_end cs) [
  | [] ↦ if is_space c then [] else c ∷ []
  | x ∷ xs ↦ c ∷ x ∷ xs
]

unfoldable pub trim : Codes → Codes
unfolding trim_start trim_end
trim cs = trim_end (trim_start cs)

unfoldable pub same : Codes → Codes → Bool
same [] [] = true
same [] (y ∷ ys) = false
same (x ∷ xs) [] = false
same (x ∷ xs) (y ∷ ys) = eqb x y && same xs ys

pub same_iff : (xs ys : Codes) → (same xs ys ≡ true) ↔ (xs ≡ ys)
unfolding same
same_iff [] [] = (λ e. refl, λ e. refl)
same_iff [] (y ∷ ys) = (λ e. ground arith, λ e. ground arith)
same_iff (x ∷ xs) [] = (λ e. ground arith, λ e. ground arith)
same_iff (x ∷ xs) (y ∷ ys) =
    (λ e. ground (arith, same_iff xs ys), λ e. ground (arith, same_iff xs ys))

-- What follows a prefix, if it is there.
unfoldable pub strip_prefix : Codes → Codes → Option Codes
strip_prefix [] cs = some cs
strip_prefix (p ∷ ps) [] = none
strip_prefix (p ∷ ps) (c ∷ cs) = if eqb p c then strip_prefix ps cs else none

-- What stands before a suffix, if it is there.
pub strip_suffix : Codes → Codes → Option Codes
unfolding same
strip_suffix suffix [] = if same [] suffix then some [] else none
strip_suffix suffix (c ∷ cs) =
    let rest = strip_suffix suffix cs in
    if same (c ∷ cs) suffix then some [] else elim rest [ none ↦ none | some xs ↦ some (c ∷ xs) ]

-- The leading codes that pass a test, and the rest.
unfoldable pub span : (ℕ → Bool) → Codes → Codes × Codes
span p [] = ([], [])
span p (c ∷ cs) = let (xs, rest) = span p cs in if p c then (c ∷ xs, rest) else ([], c ∷ cs)
