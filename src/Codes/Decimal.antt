-- ===== src/Codes/Decimal.antt =====
-- Decimal numbers: what `String(n)` prints and `Number(text)` reads for texts of digits.
use dsh_yawn.Base.{
  ℕ, ◌+◌, ◌-◌, ◌*◌, ◌/◌, ◌%◌, ◌≤◌, ◌<◌, ◌≡◌, refl, true, [], ◌∷◌, ◌++◌, length, length-append,
  every, ltb, if◌then◌else◌, arith, ◌&&◌,
}
use dsh_yawn.Codes.{Codes, is_digit}

abbrev pub number_from : ℕ → Codes → ℕ
number_from n [] = n
number_from n (c ∷ cs) = number_from (n * 10 + (c - b'0')) cs

-- `Number(text)`, exact on the numbers that the source goes on with.
unfoldable pub number : Codes → ℕ
number = number_from 0

unfoldable pub digits : ℕ → ℕ → Codes
digits ℕ.zero n = []
digits (ℕ.suc fuel) n =
    let rest = digits fuel (n / 10) in
    if ltb n 10 then (b'0' + n) ∷ [] else rest ++ (b'0' + n % 10) ∷ []

-- `${n}`: every step divides by ten, so n + 1 steps are enough.
unfoldable pub decimal : ℕ → Codes
unfolding digits
decimal n = digits (n + 1) n

number_from-append :
    (n : ℕ) (xs ys : Codes) → number_from n (xs ++ ys) ≡ number_from (number_from n xs) ys
number_from-append n [] ys = refl
number_from-append n (x ∷ xs) ys = number_from-append (n * 10 + (x - b'0')) xs ys

number-digits : (fuel n : ℕ) → n < fuel → number_from 0 (digits fuel n) ≡ n
unfolding digits
number-digits ℕ.zero n h = omega (arith, h)
number-digits (ℕ.suc fuel) n h = ground (
  arith,
  number-digits fuel (n / 10),
  number_from-append 0 (digits fuel (n / 10)) ((b'0' + n % 10) ∷ []),
)

-- Printing and reading back gives the number.
pub number-decimal : (n : ℕ) → number (decimal n) ≡ n
unfolding number decimal
number-decimal n = number-digits (n + 1) n (omega arith)

every-append :
    (xs ys : Codes) → every is_digit (xs ++ ys) ≡ (every is_digit xs && every is_digit ys)
every-append [] ys = refl
every-append (x ∷ xs) ys = ground (arith, every-append xs ys)

every-digits : (fuel n : ℕ) → every is_digit (digits fuel n) ≡ true
unfolding digits is_digit
every-digits ℕ.zero n = refl
every-digits (ℕ.suc fuel) n =
    ground (
      arith,
      every-digits fuel (n / 10),
      every-append (digits fuel (n / 10)) ((b'0' + n % 10) ∷ []),
    )

pub every-decimal : (n : ℕ) → every is_digit (decimal n) ≡ true
unfolding decimal
every-decimal n = every-digits (n + 1) n

abbrev pub power : ℕ → ℕ
power ℕ.zero = 1
power (ℕ.suc k) = power k * 10

length-digits : (fuel n k : ℕ) → n < power k → 1 ≤ k → length (digits fuel n) ≤ k
unfolding digits
length-digits ℕ.zero n k h p = omega (arith, p)
length-digits (ℕ.suc fuel) n ℕ.zero h p = omega (arith, p)
length-digits (ℕ.suc fuel) n (ℕ.suc ℕ.zero) h p = ground arith
length-digits (ℕ.suc fuel) n (ℕ.suc (ℕ.suc k)) h p = ground (
  arith,
  length-digits fuel (n / 10) (ℕ.suc k),
  length-append (digits fuel (n / 10)) ((b'0' + n % 10) ∷ []),
)

-- A number below ten to the k prints in at most k digits.
pub length-decimal : (n k : ℕ) → n < power k → 1 ≤ k → length (decimal n) ≤ k
unfolding decimal
length-decimal n k = length-digits (n + 1) n k

pub decimal-nonempty : (n : ℕ) → 1 ≤ length (decimal n)
unfolding decimal digits
decimal-nonempty n = ground (arith, length-append (digits n (n / 10)) ((b'0' + n % 10) ∷ []))
