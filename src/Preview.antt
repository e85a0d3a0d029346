-- ===== src/Preview.antt =====
-- control-plane/src/previews/preview.ts: the host name that stands for a port of a sandbox.
pub mod Labels
pub mod Names
use dsh_yawn.Base.{
  ℕ, ◌+◌, Bool, true, false, not, ◌&&◌, ◌||◌, Option, none, some, List, [], ◌∷◌, ◌++◌, map, length,
  every, eqb, leb, ltb, if◌then◌else◌,
}
use dsh_yawn.Codes.{Codes, is_digit, is_lower, lower, strip_prefix, strip_suffix}
use dsh_yawn.Codes.Decimal.{decimal, number}

pub record PreviewTarget : Type 0 where
  pub sandbox_id : Codes
  pub port : ℕ

-- `[a-z0-9-]`
pub in_label : ℕ → Bool
in_label c = is_lower c || (is_digit c || eqb c b'-')

-- The replacement finds nothing in a text that passes the test, so both branches are this one.
pub sanitize_label : Codes → Codes
unfolding in_label
sanitize_label id =
    let lowered = lower id in
    if ltb 0 (length lowered) && every in_label lowered
    then lowered
    else map (λ c. if in_label c then c else b'-') lowered

pub preview_label : Codes → ℕ → Codes
preview_label id port = sanitize_label id ++ b'-' ∷ b'p' ∷ decimal port

pub preview_host : Codes → Codes → ℕ → Codes
preview_host domain id port = preview_label id port ++ b'.' ∷ domain

-- `host.replace(/:[0-9]+$/, "")`
pub strip_port : Codes → Codes
strip_port [] = []
strip_port (c ∷ cs) =
    let rest = strip_port cs in
    if eqb c b':' && (ltb 0 (length cs) && every is_digit cs) then [] else c ∷ rest

-- The parts around the last `-p`.
pub split_marker : Codes → Option (Codes × Codes)
unfolding strip_prefix
split_marker [] = none
split_marker (c ∷ cs) = elim (split_marker cs) [
  | some (id, port) ↦ some (c ∷ id, port)
  | none ↦ elim (strip_prefix (b'-' ∷ b'p' ∷ []) (c ∷ cs)) [
    | some port ↦ some ([], port)
    | none ↦ none
  ]
]

-- `/^\d{1,5}$/`, and then a port of TCP.
pub read_port : Codes → Option ℕ
read_port text =
    if not (every is_digit text && (leb 1 (length text) && leb (length text) 5))
    then none
    else if ltb (number text) 1 || ltb 65535 (number text)
    then none
    else some (number text)

unfoldable pub with_port : Codes → Option ℕ → Option PreviewTarget
with_port id none = none
with_port id (some port) = some (record { sandbox_id = id; port = port })

pub target_of : Option (Codes × Codes) → Option PreviewTarget
unfolding with_port read_port
target_of none = none
target_of (some ([], text)) = none
target_of (some (c ∷ cs, text)) = with_port (c ∷ cs) (read_port text)

-- An empty label has no marker.
pub label_target : Option Codes → Option PreviewTarget
unfolding target_of split_marker
label_target none = none
label_target (some label) = target_of (split_marker label)

pub parse_preview_host : Codes → Option Codes → Option PreviewTarget
unfolding label_target strip_port
parse_preview_host domain none = none
parse_preview_host domain (some host) =
    label_target (strip_suffix (b'.' ∷ lower domain) (strip_port (lower host)))
