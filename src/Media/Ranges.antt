-- ===== src/Media/Ranges.antt =====
-- The byte ranges that are served: within the file, and the ones that were asked for.
use dsh_yawn.Base.{
  ℕ, ◌-◌, ◌≤◌, ◌<◌, ◌≡◌, refl, ap, true, ◌&&◌, Option, none, some, [], ◌∷◌, ◌++◌, length, every,
  leb, ltb, min, if◌then◌else◌, arith, ◌∙◌,
}
use dsh_yawn.Codes.{Codes, is_digit, trim, strip_prefix, span}
use dsh_yawn.Codes.Decimal.{decimal, number-decimal, every-decimal, decimal-nonempty}
use dsh_yawn.Codes.Splits.{strip_prefix-append, span-stop}
use dsh_yawn.Media.{
  ByteRange, RangeAnswer, invalid, part, max_safe, bytes_unit, last_bytes, end_of, bytes_from,
  range_of, after_unit, ranges_after, parse_byte_range,
}

end_of-le : (size : ℕ) (ys : Codes) → end_of size ys ≤ size - 1
unfolding end_of
end_of-le size [] = omega arith
end_of-le size (c ∷ cs) = ground arith

-- An answer that has a range has one within the file.
abbrev Within : ℕ → RangeAnswer → ByteRange → Type 0
Within size a r = a ≡ part r → (r.start ≤ r.end) × (r.end < size)

last_bytes-Within : (size : ℕ) (cs : Codes) (r : ByteRange) → Within size (last_bytes size cs) r
unfolding last_bytes
last_bytes-Within size cs r h = (ground (arith, h), ground (arith, h))

bytes_from-Within :
    (size : ℕ) (xs ys : Codes) (r : ByteRange) → Within size (bytes_from size xs ys) r
unfolding bytes_from
bytes_from-Within size xs ys r h =
    (ground (arith, h, end_of-le size ys), ground (arith, h, end_of-le size ys))

range_of-Within : (size : ℕ) (xs ys : Codes) (r : ByteRange) → Within size (range_of size xs ys) r
unfolding range_of
range_of-Within size [] [] r h = ground (arith, h)
range_of-Within size [] (c ∷ cs) r h = last_bytes-Within size (c ∷ cs) r h
range_of-Within size (c ∷ cs) ys r h = bytes_from-Within size (c ∷ cs) ys r h

after_unit-Within :
    (size : ℕ) (cut : Codes × Codes) (r : ByteRange) → Within size (after_unit size cut) r
unfolding after_unit
after_unit-Within size (xs, []) r h = ground (arith, h)
after_unit-Within size (xs, c ∷ ys) r h = range_of-Within size xs ys r (ground (arith, h))

ranges_after-Within :
    (size : ℕ) (o : Option Codes) (r : ByteRange) → Within size (ranges_after size o) r
unfolding ranges_after
ranges_after-Within size none r h = ground (arith, h)
ranges_after-Within size (some rest) r h = after_unit-Within size (span is_digit rest) r h

-- A range that a header is answered with, whatever the header says, is not empty and ends within
-- the file.
pub parse_byte_range-bounds :
    (header : Option Codes) (size : ℕ) (r : ByteRange)
    → parse_byte_range header size ≡ part r
    → (r.start ≤ r.end) × (r.end < size)
unfolding parse_byte_range
parse_byte_range-bounds none size r h = ground (arith, h)
parse_byte_range-bounds (some header) size r h =
    ranges_after-Within size (strip_prefix bytes_unit (trim header)) r h

-- The ranges that a browser asks for.
pub data RangeRequest : Type 0 where
  between : ℕ → ℕ → RangeRequest
  from : ℕ → RangeRequest
  last : ℕ → RangeRequest

abbrev pub printed : RangeRequest → Codes
printed (between a b) = bytes_unit ++ decimal a ++ b'-' ∷ decimal b
printed (from a) = bytes_unit ++ decimal a ++ b'-' ∷ []
printed (last n) = bytes_unit ++ b'-' ∷ decimal n

abbrev pub served : ℕ → RangeRequest → RangeAnswer
served size (between a b) =
    if ltb a size && leb a b then part (record { start = a; end = min b (size - 1) }) else invalid
served size (from a) = if ltb a size then part (record { start = a; end = size - 1 }) else invalid
served size (last n) =
    if leb 1 n && (leb n max_safe && leb 1 size)
    then part (record { start = size - n; end = size - 1 })
    else invalid

last_bytes-served : (size n : ℕ) → last_bytes size (decimal n) ≡ served size (last n)
unfolding last_bytes
last_bytes-served size n = ground (arith, number-decimal n)

digit_cons : (n : ℕ) → (c : ℕ) × (cs : Codes) × (decimal n ≡ c ∷ cs)
digit_cons n = by_length (decimal n) (decimal-nonempty n)
  where
    by_length : (ds : Codes) → 1 ≤ length ds → (c : ℕ) × (cs : Codes) × (ds ≡ c ∷ cs)
    by_length [] h = ground (arith, h)
    by_length (c ∷ cs) h = (c, cs, refl)

bytes_from-between :
    (size a b : ℕ)
    → size ≤ max_safe
    → bytes_from size (decimal a) (decimal b) ≡ served size (between a b)
unfolding bytes_from end_of
bytes_from-between size a b h =
    let (c, cs, e) = digit_cons b in ground (arith, h, e, number-decimal a, number-decimal b)

bytes_from-open :
    (size a : ℕ) → size ≤ max_safe → bytes_from size (decimal a) [] ≡ served size (from a)
unfolding bytes_from end_of
bytes_from-open size a h = ground (arith, h, number-decimal a)

range_of-from :
    (size a : ℕ) (ys : Codes) → range_of size (decimal a) ys ≡ bytes_from size (decimal a) ys
unfolding range_of
range_of-from size a ys = let (c, cs, e) = digit_cons a in rw e refl

range_of-last : (size n : ℕ) → range_of size [] (decimal n) ≡ last_bytes size (decimal n)
unfolding range_of
range_of-last size n = let (c, cs, e) = digit_cons n in rw e refl

after_digits :
    (size : ℕ) (xs ys : Codes)
    → every is_digit xs ≡ true
    → every is_digit ys ≡ true
    → ranges_after size (some (xs ++ b'-' ∷ ys)) ≡ range_of size xs ys
unfolding ranges_after after_unit is_digit
after_digits size xs ys hx hy =
    ap (after_unit size) (span-stop is_digit xs b'-' ys hx refl) ∙ ground (arith, hy)

after_printed :
    (size : ℕ) (typed xs ys : Codes)
    → trim typed ≡ bytes_unit ++ xs ++ b'-' ∷ ys
    → every is_digit xs ≡ true
    → every is_digit ys ≡ true
    → parse_byte_range (some typed) size ≡ range_of size xs ys
unfolding parse_byte_range
after_printed size typed xs ys e hx hy =
    ap (λ cs. ranges_after size (strip_prefix bytes_unit cs)) e
    ∙ ap (ranges_after size) (strip_prefix-append bytes_unit (xs ++ b'-' ∷ ys))
    ∙ after_digits size xs ys hx hy

-- A header that is one of the three forms of a range, white space around it aside, is answered for a
-- file of a representable size with the bytes that it names: as far as the file goes, and "invalid"
-- exactly where it names none of the file, or counts more last bytes than a safe integer.
pub parse_byte_range-served :
    (q : RangeRequest) (typed : Codes) (size : ℕ)
    → trim typed ≡ printed q
    → size ≤ max_safe
    → parse_byte_range (some typed) size ≡ served size q
parse_byte_range-served (between a b) typed size e fits =
    after_printed size typed (decimal a) (decimal b) e (every-decimal a) (every-decimal b)
    ∙ range_of-from size a (decimal b)
    ∙ bytes_from-between size a b fits
parse_byte_range-served (from a) typed size e fits =
    after_printed size typed (decimal a) [] e (every-decimal a) refl
    ∙ range_of-from size a []
    ∙ bytes_from-open size a fits
parse_byte_range-served (last n) typed size e fits =
    after_printed size typed [] (decimal n) e refl (every-decimal n)
    ∙ range_of-last size n
    ∙ last_bytes-served size n
