-- ===== src/GitHosts/Normal.antt =====
-- A normalized host is one that normalizing leaves as it is.
use dsh_yawn.Base.{
  ℕ, ◌≤◌, ◌≡◌, ◌≢◌, refl, ap, sym, subst, Bool, true, false, ◌&&◌, ◌||◌, ◌⊎◌, inl, inr, Option,
  none, some, [], ◌∷◌, ◌++◌, length, every, any, eqb, arith, ◌∙◌, Bool-cases,
}
use dsh_yawn.Exec.{ok}
use dsh_yawn.Codes.{Codes, is_digit, is_lower, is_upper, lower, lower_code, trim, is_space, span}
use dsh_yawn.Codes.Decimal.{
  decimal, number, number-decimal, every-decimal, length-decimal, decimal-nonempty,
}
use dsh_yawn.Codes.Splits.{trim-every, span-all, span-stop}
use dsh_yawn.GitHosts.{
  in_host, is_label, labels_of, match_port, bad_host, with_port, host_and_port, matched_host,
  normalize_git_host,
}

-- Codes that trimming and lower case leave as they are.
abbrev plain : ℕ → Bool
plain c = in_host c || eqb c b':'

plain-lower : (cs : Codes) → every plain cs ≡ true → lower cs ≡ cs
unfolding in_host is_lower is_digit lower_code is_upper
plain-lower [] h = refl
plain-lower (c ∷ cs) h = ground (arith, plain-lower cs)

plain-space : (cs : Codes) → every plain cs ≡ true → any is_space cs ≡ false
unfolding in_host is_lower is_digit is_space
plain-space [] h = refl
plain-space (c ∷ cs) h = ground (arith, plain-space cs)

untouched : (cs : Codes) → every plain cs ≡ true → lower (trim cs) ≡ cs
untouched cs h = ap lower (trim-every cs (plain-space cs h)) ∙ plain-lower cs h

hosts-plain : (cs : Codes) → every in_host cs ≡ true → every plain cs ≡ true
hosts-plain [] h = refl
hosts-plain (c ∷ cs) h = ground (arith, hosts-plain cs)

digits-plain : (cs : Codes) → every is_digit cs ≡ true → every plain cs ≡ true
unfolding in_host is_digit
digits-plain [] h = refl
digits-plain (c ∷ cs) h = ground (arith, digits-plain cs)

every-append : (p : ℕ → Bool) (xs ys : Codes) → every p (xs ++ ys) ≡ (every p xs && every p ys)
every-append p [] ys = refl
every-append p (x ∷ xs) ys = ground (arith, every-append p xs ys)

every-span : (p : ℕ → Bool) (cs : Codes) → every p (span p cs).0 ≡ true
unfolding span
every-span p [] = refl
every-span p (c ∷ cs) = ground (arith, every-span p cs)

in_host-colon : in_host b':' ≡ false
unfolding in_host is_lower is_digit
in_host-colon = refl

-- A host name of good labels.
abbrev Proper : Codes → Type 0
Proper name =
    (every in_host name ≡ true) × (1 ≤ length name) × (every is_label (labels_of name) ≡ true)

match_port-name : (name : Codes) → 1 ≤ length name → match_port (name, []) ≡ some (name, none)
unfolding match_port
match_port-name [] h = ground (arith, h)
match_port-name (c ∷ cs) h = refl

match_port-port :
    (name port : Codes)
    → 1 ≤ length name
    → every is_digit port ≡ true
    → 1 ≤ length port
    → length port ≤ 5
    → match_port (name, b':' ∷ port) ≡ some (name, some port)
unfolding match_port
match_port-port [] port h d a b = ground (arith, h)
match_port-port (c ∷ cs) port h d a b = ground (arith, d, a, b)

name-normal : (name : Codes) → Proper name → normalize_git_host name ≡ ok name
unfolding normalize_git_host matched_host host_and_port
name-normal name (hosts, long, labels) =
    ap (λ cs. matched_host (match_port (span in_host cs))) (untouched name (hosts-plain name hosts))
    ∙ ap (λ x. matched_host (match_port x)) (span-all in_host name hosts)
    ∙ ap matched_host (match_port-name name long)
    ∙ ground (arith, labels)

port-normal :
    (name : Codes) (value : ℕ)
    → Proper name
    → 1 ≤ value
    → value ≤ 65535
    → value ≢ 443
    → normalize_git_host (name ++ b':' ∷ decimal value) ≡ ok (name ++ b':' ∷ decimal value)
unfolding normalize_git_host matched_host host_and_port with_port
port-normal name value (hosts, long, labels) a b c =
    ap (λ cs. matched_host (match_port (span in_host cs)))
      (untouched (name ++ b':' ∷ decimal value) (
        ground (
          arith,
          every-append plain name (b':' ∷ decimal value),
          hosts-plain name hosts,
          digits-plain (decimal value) (every-decimal value),
        )))
    ∙ ap (λ x. matched_host (match_port x))
        (span-stop in_host name b':' (decimal value) hosts in_host-colon)
    ∙ ap matched_host (
        match_port-port name (decimal value) long (every-decimal value) (decimal-nonempty value)
          (length-decimal value 5 (omega (arith, b)) (omega arith)))
    ∙ ground (arith, labels, number-decimal value, a, b, c)

-- What an accepted input comes to.
host_and_port-eq-ok :
    (name : Codes) (port : Option Codes) (out : Codes)
    → host_and_port name port ≡ ok out
    → (out ≡ name)
      ⊎ ((value : ℕ) × (out ≡ name ++ b':' ∷ decimal value)
          × (1 ≤ value)
          × (value ≤ 65535)
          × (value ≢ 443))
unfolding host_and_port with_port
host_and_port-eq-ok name none out h = inl (ground (arith, h))
host_and_port-eq-ok name (some port) out h = elim (Bool-cases (eqb (number port) 443)) [
  | inl https ↦ inl (ground (arith, h, https))
  | inr other ↦ inr (
    number port,
    ground (arith, h, other),
    ground (arith, h, other),
    ground (arith, h, other),
    ground (arith, other),
  )
]

match_port-eq-some :
    (cut : Codes × Codes) (name : Codes) (port : Option Codes)
    → match_port cut ≡ some (name, port)
    → (cut.0 ≡ name) × (1 ≤ length name)
unfolding match_port
match_port-eq-some ([], rest) name port h = ground (arith, h)
match_port-eq-some (c ∷ cs, []) name port h = (ground (arith, h), ground (arith, h))
match_port-eq-some (c ∷ cs, x ∷ xs) name port h = (ground (arith, h), ground (arith, h))

matched_host-eq-ok :
    (m : Option (Codes × Option Codes)) (out : Codes)
    → matched_host m ≡ ok out
    → (name : Codes) × (port : Option Codes) × (m ≡ some (name, port))
      × (every is_label (labels_of name) ≡ true)
      × (host_and_port name port ≡ ok out)
unfolding matched_host bad_host
matched_host-eq-ok none out h = ground (arith, h)
matched_host-eq-ok (some (name, port)) out h =
    (name, port, refl, ground (arith, h), ground (arith, h))

-- What `normalizeGitHost` returns it accepts again, and returns unchanged.
pub normalize_git_host_idem :
    (input out : Codes) → normalize_git_host input ≡ ok out → normalize_git_host out ≡ ok out
unfolding normalize_git_host
normalize_git_host_idem input out h =
    let cut = span in_host (lower (trim input)) in
    let (name, port, matched, labels, made) = matched_host-eq-ok (match_port cut) out h in
    let (first, long) = match_port-eq-some cut name port matched in
    let hosts =
      subst (λ cs. every in_host cs ≡ true) first (every-span in_host (lower (trim input))) in
    elim (host_and_port-eq-ok name port out made) [
      | inl bare ↦
          subst (λ o. normalize_git_host o ≡ ok o) (sym bare)
            (name-normal name (hosts, long, labels))
      | inr (value, e, a, b, c) ↦
          subst (λ o. normalize_git_host o ≡ ok o) (sym e)
            (port-normal name value (hosts, long, labels) a b c)
    ]
