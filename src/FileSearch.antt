-- ===== src/FileSearch.antt =====
-- control-plane/src/workspaces/file-reference.ts: the files that an "@" query finds in the index of a
-- session's workspace, and how they are ranked. Texts are lists of code units.
pub mod Cache
pub mod Directory
pub mod Query
pub mod Matches
pub mod Order
pub mod Ranking
pub mod Ahead
pub mod Tiers
use Prim.Native.Nat.{Ordering, compare}
use dsh_yawn.Base.{
  ℕ, ◌+◌, ◌-◌, Bool, true, false, not, ◌&&◌, ◌||◌, Option, none, some, List, [], ◌∷◌, ◌++◌, map,
  length, keep, any, is_some, eqb, leb, if◌then◌else◌,
}
use dsh_yawn.Codes.{Codes, lower, same, strip_prefix}

pub data Kind : Type 0 where
  file : Kind
  directory : Kind

pub record FileReferenceCandidate : Type 0 where
  pub path : Codes
  pub kind : Kind

-- `text.slice(text.lastIndexOf("/") + 1)`
pub last_segment : Codes → Codes
last_segment [] = []
last_segment (c ∷ cs) =
    let rest = last_segment cs in
    if any (eqb b'/') cs then rest else if eqb c b'/' then cs else c ∷ cs

-- `text.includes(part)`
pub includes : Codes → Codes → Bool
includes part [] = is_some (strip_prefix part [])
includes part (c ∷ cs) = is_some (strip_prefix part (c ∷ cs)) || includes part cs

-- `text.split("/")`
pub segments : Codes → List Codes
segments [] = [] ∷ []
segments (c ∷ cs) = elim (segments cs) [
  | [] ↦ [] ∷ []
  | s ∷ ss ↦ if eqb c b'/' then [] ∷ s ∷ ss else (c ∷ s) ∷ ss
]

-- `text.startsWith(".")`
pub starts_hidden : Codes → Bool
starts_hidden [] = false
starts_hidden (c ∷ cs) = eqb c b'.'

visible_for_global_query : Codes → Codes → Bool
unfolding starts_hidden includes segments
visible_for_global_query path query =
    starts_hidden query
    || includes (b'/' ∷ b'.' ∷ []) query
    || not (any starts_hidden (segments path))

-- `for (const character of query)`: a high and a low surrogate next to each other are one character.
abbrev is_high : ℕ → Bool
is_high c = leb 55296 c && leb c 56319

abbrev is_low : ℕ → Bool
is_low c = leb 56320 c && leb c 57343

-- The characters with one more code in front.
pub onto_characters : ℕ → List Codes → List Codes
onto_characters c ((l ∷ []) ∷ qs) =
    if is_high c && is_low l then (c ∷ l ∷ []) ∷ qs else (c ∷ []) ∷ (l ∷ []) ∷ qs
onto_characters c qs = (c ∷ []) ∷ qs

pub characters : Codes → List Codes
unfolding onto_characters
characters [] = []
characters (c ∷ cs) = onto_characters c (characters cs)

-- What `target.indexOf(character, targetIndex)` skips, and what follows the first code of the place: the
-- next search starts at `found + 1`. A character is not empty.
pub index_of : Codes → Codes → Option (ℕ × Codes)
index_of q [] = none
index_of q (c ∷ cs) =
    if is_some (strip_prefix q (c ∷ cs))
    then some (0, cs)
    else elim (index_of q cs) [ none ↦ none | some (skipped, rest) ↦ some (skipped + 1, rest) ]

-- The loop over the query's characters, with the gap so far; `target` is what follows `targetIndex`.
pub gap_after : ℕ → Codes → List Codes → Option ℕ
unfolding index_of
gap_after gap target [] = some gap
gap_after gap target (q ∷ qs) = elim (index_of q target) [
  | none ↦ none
  | some (skipped, rest) ↦ gap_after (gap + skipped) rest qs
]

pub subsequence_score : Codes → Codes → Option ℕ
unfolding gap_after characters
subsequence_score target query = elim (gap_after 0 target (characters query)) [
  | none ↦ none
  | some gap ↦ some (100 - gap)
]

directory_bonus : Kind → ℕ
directory_bonus directory = 25
directory_bonus file = 0

-- The score by what the lower-cased path and its last segment say of the lower-cased query.
pub score_texts : (path name needle : Codes) → Option ℕ
unfolding includes subsequence_score
score_texts path name needle =
    if same name needle
    then some 1000
    else if is_some (strip_prefix needle name)
    then some 900
    else if includes needle name
    then some 700
    else if includes needle path
    then some 500
    else elim (subsequence_score path needle) [ none ↦ none | some s ↦ some (300 + s) ]

pub score_candidate : FileReferenceCandidate → Codes → Option ℕ
unfolding last_segment score_texts directory_bonus
score_candidate candidate [] = some 0
score_candidate candidate (q ∷ qs) =
    elim (score_texts (lower candidate.path) (last_segment (lower candidate.path))
      (lower (q ∷ qs))) [ none ↦ none | some s ↦ some (s + directory_bonus candidate.kind) ]

pub record Ranked : Type 0 where
  pub candidate : FileReferenceCandidate
  pub score : ℕ

pub kind_rank : Kind → ℕ
kind_rank directory = 0
kind_rank file = 1

-- `left || right` of two comparisons.
pub or_compare : Ordering → Ordering → Ordering
or_compare Ordering.lt o = Ordering.lt
or_compare Ordering.eq o = o
or_compare Ordering.gt o = Ordering.gt

pub compare_text : Codes → Codes → Ordering
unfolding or_compare
compare_text [] [] = Ordering.eq
compare_text [] (y ∷ ys) = Ordering.lt
compare_text (x ∷ xs) [] = Ordering.gt
compare_text (x ∷ xs) (y ∷ ys) = or_compare (compare x y) (compare_text xs ys)

-- Of an empty query the length does not count.
pub compare_length : Codes → Codes → Codes → Ordering
compare_length [] left right = Ordering.eq
compare_length (q ∷ qs) left right = compare (length left) (length right)

pub compare_ranked : Codes → Ranked → Ranked → Ordering
unfolding compare_text compare_length kind_rank
compare_ranked query left right = or_compare (compare right.score left.score) (
    or_compare (compare (kind_rank left.candidate.kind) (kind_rank right.candidate.kind)) (
      or_compare (compare_length query left.candidate.path right.candidate.path)
        (compare_text left.candidate.path right.candidate.path)))

pub insert_ranked : Codes → Ranked → List Ranked → List Ranked
unfolding compare_ranked
insert_ranked query x [] = x ∷ []
insert_ranked query x (y ∷ ys) = elim (compare_ranked query x y) [
  | Ordering.gt ↦ y ∷ insert_ranked query x ys
  | _ ↦ x ∷ y ∷ ys
]

-- `ranked.sort(...)`
pub sort_ranked : Codes → List Ranked → List Ranked
unfolding insert_ranked
sort_ranked query [] = []
sort_ranked query (x ∷ xs) = insert_ranked query x (sort_ranked query xs)

pub scored : List FileReferenceCandidate → Codes → List Ranked
unfolding score_candidate
scored [] query = []
scored (candidate ∷ candidates) query =
    let rest = scored candidates query in
    elim (score_candidate candidate query) [
      | none ↦ rest
      | some s ↦ record { candidate = candidate; score = s } ∷ rest
    ]

-- `ranked.slice(0, limit)`
pub first : ℕ → List Ranked → List Ranked
first ℕ.zero xs = []
first (ℕ.suc n) [] = []
first (ℕ.suc n) (x ∷ xs) = x ∷ first n xs

pub ranked : List FileReferenceCandidate → Codes → ℕ → List Ranked
unfolding scored sort_ranked first
ranked candidates query limit = first limit (sort_ranked query (scored candidates query))

pub rank_candidates : List FileReferenceCandidate → Codes → ℕ → List FileReferenceCandidate
unfolding ranked
rank_candidates candidates query limit = map (λ r. r.candidate) (ranked candidates query limit)

-- What a query without a slash is answered with, from the index.
pub list_matching : List FileReferenceCandidate → Codes → ℕ → List FileReferenceCandidate
unfolding visible_for_global_query rank_candidates
list_matching entries query limit =
    rank_candidates (keep (λ entry. visible_for_global_query entry.path query) entries) query limit
