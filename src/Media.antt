-- ===== src/Media.antt =====
-- control-plane/src/media/video-media.ts: the media type of a video file, and the byte range that a
-- request for it asks for.
pub mod Ranges
use dsh_yawn.Base.{
  ℕ, ◌+◌, ◌-◌, String, Bool, true, false, not, ◌&&◌, ◌||◌, Option, none, some, List, [], ◌∷◌, ◌++◌,
  every, any, eqb, leb, ltb, min, if◌then◌else◌,
}
use dsh_yawn.Codes.{Codes, is_digit, lower, trim, same, strip_prefix, span}
use dsh_yawn.Codes.Decimal.{number}

-- One HTTP byte range, inclusive at both ends.
pub record ByteRange : Type 0 where
  pub start : ℕ
  pub end : ℕ

-- `ByteRange | "invalid" | undefined`
pub data RangeAnswer : Type 0 where
  whole_file : RangeAnswer
  invalid : RangeAnswer
  part : ByteRange → RangeAnswer

-- `Number.MAX_SAFE_INTEGER`
abbrev pub max_safe : ℕ
max_safe = 9007199254740991

abbrev pub bytes_unit : Codes
bytes_unit = b'b' ∷ b'y' ∷ b't' ∷ b'e' ∷ b's' ∷ b'=' ∷ []

-- `bytes=-n`: the last n bytes.
pub last_bytes : ℕ → Codes → RangeAnswer
last_bytes size end_text =
    let suffix = number end_text in
    if ltb max_safe suffix || (eqb suffix 0 || eqb size 0)
    then invalid
    else part (record { start = size - suffix; end = size - 1 })

pub end_of : ℕ → Codes → ℕ
end_of size [] = size - 1
end_of size (c ∷ cs) = min (number (c ∷ cs)) (size - 1)

pub bytes_from : ℕ → Codes → Codes → RangeAnswer
unfolding end_of
bytes_from size start_text end_text =
    let start = number start_text in
    let end = end_of size end_text in
    if ltb max_safe start || leb size start
    then invalid
    else if ltb max_safe end || ltb end start
    then invalid
    else part (record { start = start; end = end })

pub range_of : ℕ → Codes → Codes → RangeAnswer
unfolding last_bytes bytes_from
range_of size [] [] = invalid
range_of size [] (c ∷ cs) = last_bytes size (c ∷ cs)
range_of size (c ∷ cs) end_text = bytes_from size (c ∷ cs) end_text

-- `(\d*)-(\d*)$`
pub after_unit : ℕ → Codes × Codes → RangeAnswer
unfolding range_of
after_unit size (start_text, []) = invalid
after_unit size (start_text, c ∷ end_text) =
    if eqb c b'-' && every is_digit end_text then range_of size start_text end_text else invalid

pub ranges_after : ℕ → Option Codes → RangeAnswer
unfolding after_unit
ranges_after size none = invalid
ranges_after size (some rest) = after_unit size (span is_digit rest)

pub parse_byte_range : Option Codes → ℕ → RangeAnswer
unfolding ranges_after
parse_byte_range none size = whole_file
parse_byte_range (some header) size = ranges_after size (strip_prefix bytes_unit (trim header))

-- `path.split(/[\\/]/).pop()`
file_name : Codes → Codes
file_name [] = []
file_name (c ∷ cs) =
    let rest = file_name cs in
    if any (λ x. eqb x b'/' || eqb x b'\\') (c ∷ cs) then rest else c ∷ cs

-- What follows the last dot, if there is one.
after_dot : Codes → Option Codes
after_dot [] = none
after_dot (c ∷ cs) = elim (after_dot cs) [
  | some suffix ↦ some suffix
  | none ↦ if eqb c b'.' then some cs else none
]

some_lower : Option Codes → Option Codes
some_lower none = none
some_lower (some []) = none
some_lower (some (c ∷ cs)) = some (lower (c ∷ cs))

suffix_of : Codes → Option Codes
unfolding file_name after_dot some_lower
suffix_of path = some_lower (after_dot (file_name path))

type_of : Option Codes → Option String
unfolding same
type_of none = none
type_of (some suffix) =
    if same suffix (b'm' ∷ b'p' ∷ b'4' ∷ []) || same suffix (b'm' ∷ b'4' ∷ b'v' ∷ [])
    then some "video/mp4"
    else if same suffix (b'm' ∷ b'o' ∷ b'v' ∷ [])
    then some "video/quicktime"
    else if same suffix (b'w' ∷ b'e' ∷ b'b' ∷ b'm' ∷ [])
    then some "video/webm"
    else if same suffix (b'o' ∷ b'g' ∷ b'v' ∷ []) || same suffix (b'o' ∷ b'g' ∷ b'g' ∷ [])
    then some "video/ogg"
    else none

-- The media type sent with a video response, by container suffix.
video_media_type : Codes → Option String
unfolding type_of suffix_of
video_media_type path = type_of (suffix_of path)
