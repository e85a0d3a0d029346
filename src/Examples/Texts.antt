-- ===== src/Examples/Texts.antt =====
-- Host names and byte ranges as they are typed.
use dsh_yawn.Base.{◌≡◌, refl, some, [], ◌∷◌, ◌++◌, arith}
use dsh_yawn.Exec.{ok}
use dsh_yawn.GitHosts.{
  normalize_git_host, matched_host, match_port, host_and_port, with_port, in_host, is_label,
  is_alnum, ends_alnum, labels_of, onto_first,
}
use dsh_yawn.Codes.{
  Codes, trim, trim_start, trim_end, is_space, is_digit, lower_code, is_upper, is_lower, span,
}
use dsh_yawn.Codes.Decimal.{decimal, digits, number}
use dsh_yawn.Preview.{sanitize_label, preview_host, parse_preview_host}
use dsh_yawn.Preview.Labels.{PortSuffix, explicit}
use dsh_yawn.Preview.Names.{parse_preview_host-preview_host}
use dsh_yawn.Media.{parse_byte_range}
use dsh_yawn.Media.Ranges.{between, served, parse_byte_range-served}

-- `Box`
abbrev box_id : Codes
box_id = b'B' ∷ b'o' ∷ b'x' ∷ []

-- `x.Io`
abbrev domain : Codes
domain = b'x' ∷ b'.' ∷ b'I' ∷ b'o' ∷ []

-- `:90`
abbrev port_suffix : Codes
port_suffix = b':' ∷ b'9' ∷ b'0' ∷ []

port_suffix-PortSuffix : PortSuffix port_suffix
unfolding is_digit
port_suffix-PortSuffix = explicit (b'9' ∷ b'0' ∷ []) refl (omega arith)

parse_preview_host-preview_host_example :
    parse_preview_host domain (some (preview_host domain box_id 3000 ++ port_suffix))
    ≡ some (record { sandbox_id = sanitize_label box_id; port = 3000 })
parse_preview_host-preview_host_example =
    parse_preview_host-preview_host domain box_id port_suffix
      (preview_host domain box_id 3000 ++ port_suffix) 3000 port_suffix-PortSuffix refl refl
      (omega arith) (omega arith) (omega arith)

-- ` bytes=2-9` of a file of five bytes
abbrev header : Codes
header = 32 ∷ b'b' ∷ b'y' ∷ b't' ∷ b'e' ∷ b's' ∷ b'=' ∷ b'2' ∷ b'-' ∷ b'9' ∷ []

header-trim : trim header ≡ b'b' ∷ b'y' ∷ b't' ∷ b'e' ∷ b's' ∷ b'=' ∷ decimal 2 ++ b'-' ∷ decimal 9
unfolding trim trim_start trim_end is_space decimal digits
header-trim = refl

parse_byte_range-served_example : parse_byte_range (some header) 5 ≡ served 5 (between 2 9)
parse_byte_range-served_example =
    parse_byte_range-served (between 2 9) header 5 header-trim (omega arith)

-- ` A.b:0443`
abbrev pub typed_host : Codes
typed_host = 32 ∷ b'A' ∷ b'.' ∷ b'b' ∷ b':' ∷ b'0' ∷ b'4' ∷ b'4' ∷ b'3' ∷ []

pub typed_host-normal : normalize_git_host typed_host ≡ ok (b'a' ∷ b'.' ∷ b'b' ∷ [])
unfolding normalize_git_host matched_host match_port host_and_port with_port in_host is_label
    is_alnum ends_alnum labels_of onto_first trim trim_start trim_end is_space lower_code is_upper
    is_lower is_digit span number
typed_host-normal = refl
