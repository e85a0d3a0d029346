-- ===== src/FileSearch/Tiers.antt =====
-- What the score of a candidate says of its path.
use dsh_yawn.Base.{
  ℕ, ◌+◌, ◌≤◌, ◌≡◌, ◌↔◌, refl, ap, subst, sym, All, List, true, false, some, none, [], ◌∷◌, ◌++◌,
  is_some, arith, inl, inr, Bool-cases, Option-cases,
}
use dsh_yawn.Codes.{Codes, lower, same, same_iff, strip_prefix}
use dsh_yawn.Codes.Splits.{strip_prefix-eq-some, strip_prefix-append}
use dsh_yawn.FileSearch.{
  FileReferenceCandidate, Kind, file, directory, Ranked, last_segment, includes, characters,
  subsequence_score, directory_bonus, score_texts, score_candidate, scored,
}
use dsh_yawn.FileSearch.Matches.{Within, subsequence_score_iff}

abbrev pub Starts : Codes → Codes → Type 0
Starts part cs = (rest : Codes) × (cs ≡ part ++ rest)

abbrev pub Occurs : Codes → Codes → Type 0
Occurs part cs = (before : Codes) × Starts (before ++ part) cs

-- How well a text matches a path and its last segment: the best of five ways that applies.
pub data Worth (path name needle : Codes) : ℕ → Type 0 where
  same_name : name ≡ needle → Worth path name needle 1000
  name_start : ¬ (name ≡ needle) → Starts needle name → Worth path name needle 900
  in_name : ¬ (Starts needle name) → Occurs needle name → Worth path name needle 700
  in_path : ¬ (Occurs needle name) → Occurs needle path → Worth path name needle 500
  scattered :
      (s : ℕ)
      → ¬ (Occurs needle name)
      → ¬ (Occurs needle path)
      → Within (characters needle) path
      → s ≤ 100
      → Worth path name needle (300 + s)

abbrev extra : Kind → ℕ
extra directory = 25
extra file = 0

-- A candidate without a query counts nothing; otherwise the way its path matches, case aside, counts,
-- and 25 for a directory.
abbrev pub Rated : Codes → Ranked → Type 0
Rated [] x = x.score ≡ 0
Rated (q ∷ qs) x =
    (s : ℕ) × (Worth (lower x.candidate.path) (last_segment (lower x.candidate.path))
        (lower (q ∷ qs)) s
      × (x.score ≡ s + extra x.candidate.kind))

strip_prefix-Starts : (part cs : Codes) → (is_some (strip_prefix part cs) ≡ true) ↔ Starts part cs
strip_prefix-Starts part cs = (
  λ e. elim (Option-cases (strip_prefix part cs)) [
    | inl lost ↦ ground (arith, e, lost)
    | inr (rest, found) ↦ (rest, strip_prefix-eq-some part cs rest found)
  ],
  λ (rest, e).
      subst (λ t. is_some (strip_prefix part t) ≡ true) (sym e)
        (ap is_some (strip_prefix-append part rest)),
)

Occurs-later : (part : Codes) (c : ℕ) (cs : Codes) → Occurs part cs → Occurs part (c ∷ cs)
Occurs-later part c cs (before, (rest, e)) = (c ∷ before, (rest, ap (λ t. c ∷ t) e))

includes-Occurs : (part cs : Codes) → includes part cs ≡ true → Occurs part cs
unfolding includes
includes-Occurs part [] e = ([], (strip_prefix-Starts part []).0 e)
includes-Occurs part (c ∷ cs) e = elim (Bool-cases (is_some (strip_prefix part (c ∷ cs)))) [
  | inl at_start ↦ ([], (strip_prefix-Starts part (c ∷ cs)).0 at_start)
  | inr later ↦ Occurs-later part c cs (includes-Occurs part cs (ground (arith, e, later)))
]

includes-append : (part before rest : Codes) → includes part ((before ++ part) ++ rest) ≡ true
unfolding includes strip_prefix
includes-append [] [] [] = refl
includes-append [] [] (c ∷ cs) = refl
includes-append (p ∷ ps) [] rest = ground (arith, strip_prefix-append (p ∷ ps) rest)
includes-append part (c ∷ cs) rest = ground (arith, includes-append part cs rest)

absent : (part cs : Codes) → includes part cs ≡ false → ¬ (Occurs part cs)
absent part cs e (before, (rest, same_text)) =
    let there : includes part cs ≡ true =
      subst (λ t. includes part t ≡ true) (sym same_text) (includes-append part before rest) in
    ground (arith, e, there)

subsequence_score-bound :
    (target query : Codes) (s : ℕ) → subsequence_score target query ≡ some s → s ≤ 100
unfolding subsequence_score
subsequence_score-bound target query s e = ground (arith, e)

score_texts-Worth :
    (path name needle : Codes) (s : ℕ)
    → score_texts path name needle ≡ some s
    → Worth path name needle s
unfolding score_texts
score_texts-Worth path name needle s e = elim (Bool-cases (same name needle)) [
  | inl equal ↦
      subst (Worth path name needle) (ground (arith, e, equal))
        (same_name ((same_iff name needle).0 equal))
  | inr no_equal ↦ elim (Bool-cases (is_some (strip_prefix needle name))) [
    | inl starts ↦ subst (Worth path name needle) (ground (arith, e, no_equal, starts)) (
        name_start (λ h. ground (arith, no_equal, (same_iff name needle).1 h))
          ((strip_prefix-Starts needle name).0 starts))
    | inr no_start ↦ elim (Bool-cases (includes needle name)) [
      | inl inside ↦
          subst (Worth path name needle) (ground (arith, e, no_equal, no_start, inside)) (
            in_name (λ h. ground (arith, no_start, (strip_prefix-Starts needle name).1 h))
              (includes-Occurs needle name inside))
      | inr no_name ↦ elim (Bool-cases (includes needle path)) [
        | inl found ↦
            subst (Worth path name needle) (ground (arith, e, no_equal, no_start, no_name, found))
              (in_path (absent needle name no_name) (includes-Occurs needle path found))
        | inr no_path ↦ elim (Option-cases (subsequence_score path needle)) [
          | inl lost ↦ ground (arith, e, no_equal, no_start, no_name, no_path, lost)
          | inr (t, spread) ↦
              subst (Worth path name needle)
                (ground (arith, e, no_equal, no_start, no_name, no_path, spread))
                (scattered t (absent needle name no_name) (absent needle path no_path)
                  ((subsequence_score_iff path needle).0 (ap is_some spread))
                  (subsequence_score-bound path needle t spread))
        ]
      ]
    ]
  ]
]

directory_bonus-extra : (k : Kind) → directory_bonus k ≡ extra k
unfolding directory_bonus
directory_bonus-extra directory = refl
directory_bonus-extra file = refl

score_candidate-Rated :
    (candidate : FileReferenceCandidate) (query : Codes) (s : ℕ)
    → score_candidate candidate query ≡ some s
    → Rated query (record { candidate = candidate; score = s })
unfolding score_candidate
score_candidate-Rated candidate [] s e = ground (arith, e)
score_candidate-Rated candidate (q ∷ qs) s e =
    let path = lower candidate.path in
    let texts = score_texts path (last_segment path) (lower (q ∷ qs)) in
    elim (Option-cases texts) [
      | inl lost ↦ ground (arith, e, lost)
      | inr (t, found) ↦ (
        t,
        (
          score_texts-Worth path (last_segment path) (lower (q ∷ qs)) t found,
          ground (arith, e, found, directory_bonus-extra candidate.kind),
        ),
      )
    ]

pub scored-Rated :
    (candidates : List FileReferenceCandidate) (query : Codes)
    → All (Rated query) (scored candidates query)
unfolding scored
scored-Rated [] query = tt
scored-Rated (candidate ∷ candidates) query =
    (elim (score_candidate candidate query)
        as (λ o.
          score_candidate candidate query ≡ o
          → All (Rated query) (elim o [
            | none ↦ scored candidates query
            | some s ↦ record { candidate = candidate; score = s } ∷ scored candidates query
          ])) [
            | none ↦ λ e. scored-Rated candidates query
            | some s ↦
                λ e. (score_candidate-Rated candidate query s e, scored-Rated candidates query)
          ])
      refl
