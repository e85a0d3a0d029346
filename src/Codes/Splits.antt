-- ===== src/Codes/Splits.antt =====
-- What the splits of a text find in a text that was put together.
use dsh_yawn.Base.{
  ℕ, ◌≡◌, refl, ap, Bool, true, false, some, [], ◌∷◌, ◌++◌, length-append, every, any, arith,
}
use dsh_yawn.Codes.{
  Codes, lower, lower_code, is_upper, same, same_iff, strip_prefix, strip_suffix, span, trim,
  trim_start, trim_end, is_space,
}

pub append-nil : (xs : Codes) → xs ++ [] ≡ xs
append-nil [] = refl
append-nil (x ∷ xs) = ap (λ r. x ∷ r) (append-nil xs)

pub lower-append : (xs ys : Codes) → lower (xs ++ ys) ≡ lower xs ++ lower ys
lower-append [] ys = refl
lower-append (x ∷ xs) ys = ap (λ r. lower_code x ∷ r) (lower-append xs ys)

pub lower_code_idem : (c : ℕ) → lower_code (lower_code c) ≡ lower_code c
unfolding lower_code is_upper
lower_code_idem c = ground arith

-- Lower-case letters stay as they are.
pub lower_idem : (xs : Codes) → lower (lower xs) ≡ lower xs
lower_idem [] = refl
lower_idem (x ∷ xs) = ground (arith, lower_idem xs, lower_code_idem x)

pub strip_prefix-append : (ps cs : Codes) → strip_prefix ps (ps ++ cs) ≡ some cs
unfolding strip_prefix
strip_prefix-append [] cs = refl
strip_prefix-append (p ∷ ps) cs = ground (arith, strip_prefix-append ps cs)

pub strip_prefix-eq-some : (ps cs rest : Codes) → strip_prefix ps cs ≡ some rest → cs ≡ ps ++ rest
unfolding strip_prefix
strip_prefix-eq-some [] cs rest h = ground arith
strip_prefix-eq-some (p ∷ ps) [] rest h = ground arith
strip_prefix-eq-some (p ∷ ps) (c ∷ cs) rest h = ground (arith, strip_prefix-eq-some ps cs rest)

strip_suffix_self : (suffix : Codes) → strip_suffix suffix suffix ≡ some []
unfolding strip_suffix
strip_suffix_self [] = ground (arith, same_iff [] [])
strip_suffix_self (c ∷ cs) = ground (arith, same_iff (c ∷ cs) (c ∷ cs))

longer : (c : ℕ) (xs ys : Codes) → same (c ∷ xs ++ ys) ys ≡ false
longer c xs ys = ground (arith, same_iff (c ∷ xs ++ ys) ys, length-append xs ys)

pub strip_suffix-append : (suffix xs : Codes) → strip_suffix suffix (xs ++ suffix) ≡ some xs
unfolding strip_suffix
strip_suffix-append suffix [] = strip_suffix_self suffix
strip_suffix-append suffix (x ∷ xs) =
    ground (arith, longer x xs suffix, strip_suffix-append suffix xs)

-- A run of codes that pass the test, in front of nothing or of a code that fails it.
pub span-all : (p : ℕ → Bool) (xs : Codes) → every p xs ≡ true → span p xs ≡ (xs, [])
unfolding span
span-all p [] h = refl
span-all p (x ∷ xs) h = ground (arith, span-all p xs)

pub span-stop :
    (p : ℕ → Bool) (xs : Codes) (c : ℕ) (rest : Codes)
    → every p xs ≡ true
    → p c ≡ false
    → span p (xs ++ c ∷ rest) ≡ (xs, c ∷ rest)
unfolding span
span-stop p [] c rest h e = ground (arith, e)
span-stop p (x ∷ xs) c rest h e = ground (arith, span-stop p xs c rest)

pub span-append : (p : ℕ → Bool) (cs : Codes) → cs ≡ (span p cs).0 ++ (span p cs).1
unfolding span
span-append p [] = refl
span-append p (c ∷ cs) = ground (arith, span-append p cs)

-- A text without white space at its ends is what `trim` leaves.
pub trim_start-nothing : (c : ℕ) (cs : Codes) → is_space c ≡ false → trim_start (c ∷ cs) ≡ c ∷ cs
unfolding trim_start
trim_start-nothing c cs h = ground (arith, h)

pub trim_end-every : (cs : Codes) → any is_space cs ≡ false → trim_end cs ≡ cs
unfolding trim_end
trim_end-every [] h = refl
trim_end-every (c ∷ []) h = ground arith
trim_end-every (c ∷ x ∷ xs) h = ground (arith, trim_end-every (x ∷ xs))

pub trim-every : (cs : Codes) → any is_space cs ≡ false → trim cs ≡ cs
unfolding trim
trim-every [] h = ground arith
trim-every (c ∷ cs) h = ground (arith, trim_start-nothing c cs, trim_end-every (c ∷ cs))
