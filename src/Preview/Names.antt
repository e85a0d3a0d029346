-- ===== src/Preview/Names.antt =====
-- Host names read back into the sandbox and the port that they were made for.
use dsh_yawn.Base.{ℕ, ◌≤◌, ◌≡◌, ap, true, some, ◌∷◌, ◌++◌, length, ◌∙◌}
use dsh_yawn.Codes.{Codes, lower, strip_suffix}
use dsh_yawn.Codes.Decimal.{decimal, every-decimal}
use dsh_yawn.Codes.Splits.{strip_suffix-append}
use dsh_yawn.Preview.{
  sanitize_label, preview_label, preview_host, strip_port, target_of, label_target,
  parse_preview_host,
}
use dsh_yawn.Preview.Labels.{
  PortSuffix, no_colon, strip_port-suffix, split_marker-append, target_of-label, lower-host,
  no_colon-host,
}

-- A host name that `previewHost` made for a sandbox id that is not empty and a port of TCP, under a
-- domain without a colon, is read back into that port and the id as `sanitizeLabel` writes it: in
-- whatever case it was typed, and with or without the port of the preview server behind it.
pub parse_preview_host-preview_host :
    (domain id suffix typed : Codes) (port : ℕ)
    → PortSuffix suffix
    → lower typed ≡ lower (preview_host domain id port ++ suffix)
    → no_colon domain ≡ true
    → 1 ≤ length id
    → 1 ≤ port
    → port ≤ 65535
    → parse_preview_host domain (some typed)
      ≡ some (record { sandbox_id = sanitize_label id; port = port })
unfolding parse_preview_host label_target preview_label sanitize_label
parse_preview_host-preview_host domain id suffix typed port s e colons a b c =
    let dotted = b'.' ∷ lower domain in
    let label = preview_label id port in
    let stripped =
      ap strip_port (e ∙ lower-host domain id suffix port s)
      ∙ strip_port-suffix (label ++ dotted) suffix (no_colon-host domain id port colons) s in
    ap (λ cs. label_target (strip_suffix dotted cs)) stripped
    ∙ ap label_target (strip_suffix-append dotted label)
    ∙ ap target_of (split_marker-append (sanitize_label id) (decimal port) (every-decimal port))
    ∙ target_of-label id port a b c
