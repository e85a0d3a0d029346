-- ===== src/Preview/Labels.antt =====
-- The labels that name a sandbox and a port, and the splits that take them apart.
use dsh_yawn.Base.{
  ℕ, ◌≤◌, ◌≡◌, refl, ap, Bool, true, false, not, ◌&&◌, none, some, [], ◌∷◌, ◌++◌, map, length,
  every, eqb, if◌then◌else◌, arith, ◌∙◌,
}
use dsh_yawn.Codes.{Codes, is_digit, is_lower, lower, lower_code, is_upper, strip_prefix}
use dsh_yawn.Codes.Decimal.{
  decimal, number-decimal, every-decimal, length-decimal, decimal-nonempty,
}
use dsh_yawn.Codes.Splits.{append-nil, lower-append}
use dsh_yawn.Preview.{
  in_label, sanitize_label, preview_label, preview_host, strip_port, split_marker, read_port,
  target_of, with_port,
}

-- The port that a browser adds to a host name on a port of its own.
pub data PortSuffix : Codes → Type 0 where
  default : PortSuffix []
  explicit :
      (port : Codes) → every is_digit port ≡ true → 1 ≤ length port → PortSuffix (b':' ∷ port)

abbrev pub no_colon : Codes → Bool
no_colon = every (λ c. not (eqb c b':'))

no_colon-digits : (cs : Codes) → every is_digit cs ≡ true → no_colon cs ≡ true
unfolding is_digit
no_colon-digits [] h = refl
no_colon-digits (c ∷ cs) h = ground (arith, no_colon-digits cs)

no_colon-append : (xs ys : Codes) → no_colon (xs ++ ys) ≡ (no_colon xs && no_colon ys)
no_colon-append [] ys = refl
no_colon-append (x ∷ xs) ys = ground (arith, no_colon-append xs ys)

strip_port-none : (cs : Codes) → no_colon cs ≡ true → strip_port cs ≡ cs
unfolding strip_port
strip_port-none [] h = refl
strip_port-none (c ∷ cs) h = ground (arith, strip_port-none cs)

-- A colon that is followed by digits only is where a port is cut off.
strip_port-explicit :
    (cs port : Codes)
    → no_colon cs ≡ true
    → every is_digit port ≡ true
    → 1 ≤ length port
    → strip_port (cs ++ b':' ∷ port) ≡ cs
unfolding strip_port
strip_port-explicit [] port h d p = ground (arith, d, p)
strip_port-explicit (c ∷ cs) port h d p = ground (arith, strip_port-explicit cs port)

pub strip_port-suffix :
    (cs suffix : Codes) → no_colon cs ≡ true → PortSuffix suffix → strip_port (cs ++ suffix) ≡ cs
strip_port-suffix cs [] h default = ap strip_port (append-nil cs) ∙ strip_port-none cs h
strip_port-suffix cs (x ∷ xs) h (explicit port d p) = strip_port-explicit cs xs h d p

no_p-digits : (c : ℕ) → is_digit c ≡ true → eqb b'-' c ≡ false
unfolding is_digit
no_p-digits c h = ground (arith, h)

pub split_marker-digits : (cs : Codes) → every is_digit cs ≡ true → split_marker cs ≡ none
unfolding split_marker strip_prefix
split_marker-digits [] h = refl
split_marker-digits (c ∷ cs) h = ground (arith, split_marker-digits cs, no_p-digits c)

-- The marker that is found is the last one, whatever the id holds.
pub split_marker-append :
    (id port : Codes)
    → every is_digit port ≡ true
    → split_marker (id ++ b'-' ∷ b'p' ∷ port) ≡ some (id, port)
unfolding split_marker strip_prefix
split_marker-append [] port h = ground (arith, split_marker-digits port h)
split_marker-append (c ∷ id) port h = ground (arith, split_marker-append id port h)

pub read_port-decimal : (port : ℕ) → 1 ≤ port → port ≤ 65535 → read_port (decimal port) ≡ some port
unfolding read_port
read_port-decimal port a b = ground (
  arith,
  number-decimal port,
  every-decimal port,
  length-decimal port 5 (omega (arith, b)) (omega arith),
  decimal-nonempty port,
)

-- Codes that `toLowerCase` leaves as they are.
abbrev fixed : Codes → Bool
fixed = every (λ c. eqb (lower_code c) c)

lower-fixed : (cs : Codes) → fixed cs ≡ true → lower cs ≡ cs
lower-fixed [] h = refl
lower-fixed (c ∷ cs) h = ground (arith, lower-fixed cs)

fixed-digits : (cs : Codes) → every is_digit cs ≡ true → fixed cs ≡ true
unfolding is_digit lower_code is_upper
fixed-digits [] h = refl
fixed-digits (c ∷ cs) h = ground (arith, fixed-digits cs)

labels-fixed : (cs : Codes) → every in_label cs ≡ true → fixed cs ≡ true
unfolding in_label is_lower is_digit lower_code is_upper
labels-fixed [] h = refl
labels-fixed (c ∷ cs) h = ground (arith, labels-fixed cs)

labels-no_colon : (cs : Codes) → every in_label cs ≡ true → no_colon cs ≡ true
unfolding in_label is_lower is_digit
labels-no_colon [] h = refl
labels-no_colon (c ∷ cs) h = ground (arith, labels-no_colon cs)

replaced : (cs : Codes) → every in_label (map (λ c. if in_label c then c else b'-') cs) ≡ true
unfolding in_label
replaced [] = refl
replaced (c ∷ cs) = ground (arith, replaced cs)

pub every-sanitize_label : (id : Codes) → every in_label (sanitize_label id) ≡ true
unfolding sanitize_label
every-sanitize_label id = ground (arith, replaced (lower id))

length-map : (f : ℕ → ℕ) (cs : Codes) → length (map f cs) ≡ length cs
length-map f [] = refl
length-map f (c ∷ cs) = ground (arith, length-map f cs)

length-sanitize_label : (id : Codes) → length (sanitize_label id) ≡ length id
unfolding sanitize_label
length-sanitize_label id =
    ground
      (arith, length-map lower_code id, length-map (λ c. if in_label c then c else b'-') (lower id))

no_colon-lower : (cs : Codes) → no_colon (lower cs) ≡ no_colon cs
unfolding lower_code is_upper
no_colon-lower [] = refl
no_colon-lower (c ∷ cs) = ground (arith, no_colon-lower cs)

suffix-fixed : (suffix : Codes) → PortSuffix suffix → lower suffix ≡ suffix
unfolding lower_code is_upper
suffix-fixed [] default = refl
suffix-fixed (x ∷ xs) (explicit port d p) = ap (λ r. b':' ∷ r) (lower-fixed xs (fixed-digits xs d))

-- The label in front of the domain, as `toLowerCase` leaves it.
lower-preview_label :
    (id : Codes) (port : ℕ) → lower (preview_label id port) ≡ preview_label id port
unfolding preview_label lower_code is_upper
lower-preview_label id port =
    lower-append (sanitize_label id) _
    ∙ ap (λ r. r ++ b'-' ∷ b'p' ∷ lower (decimal port))
        (lower-fixed _ (labels-fixed _ (every-sanitize_label id)))
    ∙ ap (λ r. sanitize_label id ++ b'-' ∷ b'p' ∷ r)
        (lower-fixed _ (fixed-digits _ (every-decimal port)))

no_colon-preview_label : (id : Codes) (port : ℕ) → no_colon (preview_label id port) ≡ true
unfolding preview_label
no_colon-preview_label id port = ground (
  arith,
  no_colon-append (sanitize_label id) (b'-' ∷ b'p' ∷ decimal port),
  labels-no_colon (sanitize_label id) (every-sanitize_label id),
  no_colon-digits (decimal port) (every-decimal port),
)

pub target_of-label :
    (id : Codes) (port : ℕ)
    → 1 ≤ length id
    → 1 ≤ port
    → port ≤ 65535
    → target_of (some (sanitize_label id, decimal port))
      ≡ some (record { sandbox_id = sanitize_label id; port = port })
unfolding target_of with_port
target_of-label id port a b c =
    by_label (sanitize_label id) (omega (arith, a, length-sanitize_label id))
  where
    by_label :
        (label : Codes)
        → 1 ≤ length label
        → target_of (some (label, decimal port)) ≡ some (record { sandbox_id = label; port = port })
    by_label [] h = ground (arith, h)
    by_label (x ∷ xs) h = ap (with_port (x ∷ xs)) (read_port-decimal port b c)

pub lower-host :
    (domain id suffix : Codes) (port : ℕ)
    → PortSuffix suffix
    → lower (preview_host domain id port ++ suffix)
      ≡ (preview_label id port ++ b'.' ∷ lower domain) ++ suffix
unfolding preview_host lower_code is_upper
lower-host domain id suffix port s =
    lower-append (preview_host domain id port) suffix
    ∙ ap (λ r. lower (preview_host domain id port) ++ r) (suffix-fixed suffix s)
    ∙ ap (λ r. r ++ suffix) (lower-append (preview_label id port) (b'.' ∷ domain))
    ∙ ap (λ r. (r ++ b'.' ∷ lower domain) ++ suffix) (lower-preview_label id port)

pub no_colon-host :
    (domain id : Codes) (port : ℕ)
    → no_colon domain ≡ true
    → no_colon (preview_label id port ++ b'.' ∷ lower domain) ≡ true
no_colon-host domain id port h = ground (
  arith,
  no_colon-append (preview_label id port) (b'.' ∷ lower domain),
  no_colon-preview_label id port,
  no_colon-lower domain,
)
