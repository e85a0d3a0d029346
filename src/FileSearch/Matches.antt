-- ===== src/FileSearch/Matches.antt =====
-- Which candidates a query matches.
use dsh_yawn.Base.{
  ℕ, ◌+◌, ◌≡◌, refl, ap, ◌∙◌, subst, sym, All, List, true, false, leb, ◌&&◌, if◌then◌else◌, ◌↔◌,
  some, [], ◌∷◌, ◌++◌, any, is_some, eqb, arith, inl, inr, Bool-cases, Option-cases,
}
use mathlib.Core.List.{append-nil, append_assoc}
use dsh_yawn.Codes.{Codes, lower, same, same_iff, strip_prefix}
use dsh_yawn.Codes.Splits.{strip_prefix-eq-some, strip_prefix-append}
use dsh_yawn.FileSearch.{
  FileReferenceCandidate, last_segment, includes, onto_characters, characters, index_of, gap_after,
  subsequence_score, score_texts, score_candidate,
}

-- Each character stands in the text, and at a later place than the one before it.
pub data Within : List Codes → Codes → Type 0 where
  nothing : (cs : Codes) → Within [] cs
  here :
      (q : Codes) (qs : List Codes) (c : ℕ) (cs : Codes)
      → is_some (strip_prefix q (c ∷ cs)) ≡ true
      → Within qs cs
      → Within (q ∷ qs) (c ∷ cs)
  skip : (c : ℕ) (qs : List Codes) (cs : Codes) → Within qs cs → Within qs (c ∷ cs)

Within-append : (xs : Codes) (qs : List Codes) (cs : Codes) → Within qs cs → Within qs (xs ++ cs)
Within-append [] qs cs w = w
Within-append (x ∷ xs) qs cs w = skip x qs (xs ++ cs) (Within-append xs qs cs w)

Within-tail : (q : Codes) (qs : List Codes) (cs : Codes) → Within (q ∷ qs) cs → Within qs cs
Within-tail q qs _ (here _ _ c cs e w) = skip c qs cs w
Within-tail q qs _ (skip c _ cs w) = skip c qs cs (Within-tail q qs cs w)

joined : List Codes → Codes
joined [] = []
joined (q ∷ qs) = q ++ joined qs

abbrev NonEmpty : Codes → Type 0
NonEmpty [] = ⊥
NonEmpty (c ∷ cs) = Unit

onto-joined : (c : ℕ) (qs : List Codes) → joined (onto_characters c qs) ≡ c ∷ joined qs
unfolding onto_characters joined
onto-joined c [] = refl
onto-joined c ([] ∷ qs) = refl
onto-joined c ((l ∷ []) ∷ qs) = ground arith
onto-joined c ((l ∷ m ∷ ls) ∷ qs) = refl

onto-NonEmpty : (c : ℕ) (qs : List Codes) → All NonEmpty qs → All NonEmpty (onto_characters c qs)
unfolding onto_characters
onto-NonEmpty c [] i = (tt, tt)
onto-NonEmpty c ([] ∷ qs) i = (tt, i)
onto-NonEmpty c ((l ∷ []) ∷ qs) (i, is) =
    elim (leb 55296 c && leb c 56319 && (leb 56320 l && leb l 57343))
      as (λ b. All NonEmpty (if b then (c ∷ l ∷ []) ∷ qs else (c ∷ []) ∷ (l ∷ []) ∷ qs)) [
        | true ↦ (tt, is)
        | false ↦ (tt, (tt, is))
      ]
onto-NonEmpty c ((l ∷ m ∷ ls) ∷ qs) i = (tt, i)

joined-characters : (cs : Codes) → joined (characters cs) ≡ cs
unfolding characters joined
joined-characters [] = refl
joined-characters (c ∷ cs) = onto-joined c (characters cs) ∙ ap (λ r. c ∷ r) (joined-characters cs)

characters-NonEmpty : (cs : Codes) → All NonEmpty (characters cs)
unfolding characters
characters-NonEmpty [] = tt
characters-NonEmpty (c ∷ cs) = onto-NonEmpty c (characters cs) (characters-NonEmpty cs)

Within-joined : (qs : List Codes) (rest : Codes) → All NonEmpty qs → Within qs (joined qs ++ rest)
unfolding joined
Within-joined [] rest i = nothing rest
Within-joined ([] ∷ qs) rest (i, is) = elim i [ ]
Within-joined ((c ∷ cs) ∷ qs) rest (i, is) =
    subst (λ t. Within ((c ∷ cs) ∷ qs) t) (sym (append_assoc (c ∷ cs) (joined qs) rest))
      (here (c ∷ cs) qs c (cs ++ (joined qs ++ rest))
        (ap is_some (strip_prefix-append (c ∷ cs) (joined qs ++ rest)))
        (Within-append cs qs (joined qs ++ rest) (Within-joined qs rest is)))

-- A text stands in what begins with it.
Within-prefix : (part rest : Codes) → Within (characters part) (part ++ rest)
Within-prefix part rest =
    subst (λ cs. Within (characters part) (cs ++ rest)) (joined-characters part)
      (Within-joined (characters part) rest (characters-NonEmpty part))

index_of-some :
    (q target : Codes) (skipped : ℕ) (rest : Codes) (qs : List Codes)
    → index_of q target ≡ some (skipped, rest)
    → Within qs rest
    → Within (q ∷ qs) target
unfolding index_of
index_of-some q [] skipped rest qs e w = ground (arith, e)
index_of-some q (c ∷ cs) skipped rest qs e w =
    elim (Bool-cases (is_some (strip_prefix q (c ∷ cs)))) [
      | inl found ↦
          let same_rest : rest ≡ cs = ground (arith, e, found) in
          here q qs c cs found (subst (Within qs) same_rest w)
      | inr other ↦ elim (Option-cases (index_of q cs)) [
        | inl lost ↦ ground (arith, e, other, lost)
        | inr ((n, r), later) ↦
            let same_rest : rest ≡ r = ground (arith, e, other, later) in
            skip c (q ∷ qs) cs (index_of-some q cs n r qs later (subst (Within qs) same_rest w))
      ]
    ]

index_of-Within :
    (q : Codes) (qs : List Codes) (target : Codes)
    → Within (q ∷ qs) target
    → (skipped : ℕ) × ((rest : Codes) × ((index_of q target ≡ some (skipped, rest))
          × Within qs rest))
unfolding index_of
index_of-Within q qs _ (here _ _ c cs e w) = (0, (cs, (ground (arith, e), w)))
index_of-Within q qs _ (skip c _ cs w) = elim (Bool-cases (is_some (strip_prefix q (c ∷ cs)))) [
  | inl found ↦ (0, (cs, (ground (arith, found), Within-tail q qs cs w)))
  | inr other ↦
      let (n, (rest, (later, v))) = index_of-Within q qs cs w in
      (n + 1, (rest, (ground (arith, other, later), v)))
]

-- The greedy walk finds the characters if and only if they are there.
gap_after-Within :
    (gap : ℕ) (target : Codes) (qs : List Codes)
    → is_some (gap_after gap target qs) ≡ true
    → Within qs target
unfolding gap_after
gap_after-Within gap target [] e = nothing target
gap_after-Within gap target (q ∷ qs) e = elim (Option-cases (index_of q target)) [
  | inl lost ↦ ground (arith, e, lost)
  | inr ((n, rest), found) ↦
      index_of-some q target n rest qs found
        (gap_after-Within (gap + n) rest qs (ground (arith, e, found)))
]

Within-gap_after :
    (gap : ℕ) (target : Codes) (qs : List Codes)
    → Within qs target
    → is_some (gap_after gap target qs) ≡ true
unfolding gap_after
Within-gap_after gap target [] w = refl
Within-gap_after gap target (q ∷ qs) w =
    let (n, (rest, (found, v))) = index_of-Within q qs target w in
    ground (arith, found, Within-gap_after (gap + n) rest qs v)

pub subsequence_score_iff :
    (target query : Codes)
    → (is_some (subsequence_score target query) ≡ true) ↔ Within (characters query) target
unfolding subsequence_score
subsequence_score_iff target query = (
  λ e. gap_after-Within 0 target (characters query) (ground (arith, e)),
  λ w. ground (arith, Within-gap_after 0 target (characters query) w),
)

whole : (part : Codes) → Within (characters part) part
whole part = subst (Within (characters part)) (append-nil part) (Within-prefix part [])

strip_prefix-Within :
    (part cs : Codes) → is_some (strip_prefix part cs) ≡ true → Within (characters part) cs
strip_prefix-Within part cs e = elim (Option-cases (strip_prefix part cs)) [
  | inl lost ↦ ground (arith, e, lost)
  | inr (rest, found) ↦
      subst (Within (characters part)) (sym (strip_prefix-eq-some part cs rest found))
        (Within-prefix part rest)
]

includes-Within : (part cs : Codes) → includes part cs ≡ true → Within (characters part) cs
unfolding includes
includes-Within part [] e = strip_prefix-Within part [] e
includes-Within part (c ∷ cs) e = elim (Bool-cases (is_some (strip_prefix part (c ∷ cs)))) [
  | inl at_start ↦ strip_prefix-Within part (c ∷ cs) at_start
  | inr later ↦ skip c (characters part) cs (includes-Within part cs (ground (arith, e, later)))
]

last_segment-Within : (qs : List Codes) (cs : Codes) → Within qs (last_segment cs) → Within qs cs
unfolding last_segment
last_segment-Within qs [] w = w
last_segment-Within qs (c ∷ cs) w = elim (Bool-cases (any (eqb b'/') cs)) [
  | inl more ↦ skip c qs cs (last_segment-Within qs cs (subst (Within qs) (ground (arith, more)) w))
  | inr last ↦ elim (Bool-cases (eqb c b'/')) [
    | inl slash ↦ skip c qs cs (subst (Within qs) (ground (arith, last, slash)) w)
    | inr other ↦ subst (Within qs) (ground (arith, last, other)) w
  ]
]

-- A name that the path ends with, so that what stands in the name stands in the path.
score_texts-Within :
    (path name needle : Codes)
    → ((qs : List Codes) → Within qs name → Within qs path)
    → is_some (score_texts path name needle) ≡ true
    → Within (characters needle) path
unfolding score_texts
score_texts-Within path name needle ends e = elim (Bool-cases (same name needle)) [
  | inl equal ↦
      ends (characters needle)
        (subst (Within (characters needle)) (sym ((same_iff name needle).0 equal)) (whole needle))
  | inr no_equal ↦ elim (Bool-cases (is_some (strip_prefix needle name))) [
    | inl starts ↦ ends (characters needle) (strip_prefix-Within needle name starts)
    | inr no_start ↦ elim (Bool-cases (includes needle name)) [
      | inl inside ↦ ends (characters needle) (includes-Within needle name inside)
      | inr no_name ↦ elim (Bool-cases (includes needle path)) [
        | inl in_path ↦ includes-Within needle path in_path
        | inr no_path ↦
            (subsequence_score_iff path needle).0
              (ground (arith, e, no_equal, no_start, no_name, no_path))
      ]
    ]
  ]
]

Within-score_texts :
    (path name needle : Codes)
    → Within (characters needle) path
    → is_some (score_texts path name needle) ≡ true
unfolding score_texts
Within-score_texts path name needle w = ground (arith, (subsequence_score_iff path needle).1 w)

-- A candidate is offered if and only if each character of the query stands in its path at a later place
-- than the one before it, case aside, however the score comes about.
pub score_candidate_iff :
    (candidate : FileReferenceCandidate) (query : Codes)
    → (is_some (score_candidate candidate query) ≡ true)
      ↔ Within (characters (lower query)) (lower candidate.path)
unfolding score_candidate
score_candidate_iff candidate [] = (λ e. Within-prefix [] (lower candidate.path), λ w. refl)
score_candidate_iff candidate (q ∷ qs) =
    let path = lower candidate.path in
    let needle = lower (q ∷ qs) in
    (
      λ e.
          score_texts-Within path (last_segment path) needle (λ cs w. last_segment-Within cs path w)
            (ground (arith, e)),
      λ w. ground (arith, Within-score_texts path (last_segment path) needle w),
    )
