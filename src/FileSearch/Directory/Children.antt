-- ===== src/FileSearch/Directory/Children.antt =====
-- Which entries a directory query offers.
use dsh_yawn.Base.{
  ℕ, ◌+◌, ◌≡◌, refl, ap, sym, ◌∙◌, Bool, true, false, not, ◌&&◌, none, some, List, [], ◌∷◌, ◌++◌,
  map, length, keep, any, All, if◌then◌else◌, arith,
}
use dsh_yawn.Codes.{Codes, same, same_iff}
use mathlib.Core.List.{append_assoc}
use dsh_yawn.FileSearch.{
  FileReferenceCandidate, Ranked, segments, starts_hidden, score_candidate, scored, sort_ranked,
  first, ranked, rank_candidates,
}
use dsh_yawn.FileSearch.Ranking.{All-sort_ranked, All-first}
use dsh_yawn.FileSearch.Directory.{join, take, last, prefix_of, in_prefix, is_child, list_directory}
use dsh_yawn.FileSearch.Directory.Parts.{
  Plain, join-segments, join-last, segments-Plain, last-Plain,
}

-- What stands before the name of an entry of a directory.
abbrev pub before : List Codes → Codes
before [] = []
before (p ∷ ps) = join (p ∷ ps) ++ b'/' ∷ []

in_prefix-join :
    (prefix parts : List Codes)
    → length parts ≡ length prefix + 1
    → in_prefix prefix parts ≡ true
    → join parts ≡ before prefix ++ last parts
unfolding in_prefix join last
in_prefix-join [] [] e h = refl
in_prefix-join [] (s ∷ []) e h = refl
in_prefix-join [] (s ∷ t ∷ ss) e h = ground (arith, e)
in_prefix-join (p ∷ ps) parts e h =
    let same_start : join (take (length (p ∷ ps)) parts) ≡ join (p ∷ ps) =
      (same_iff (join (take (length (p ∷ ps)) parts)) (join (p ∷ ps))).0 h in
    let cut : join parts ≡ join (p ∷ ps) ++ b'/' ∷ last parts =
      join-last (length ps) parts (omega (arith, e))
      ∙ ap (λ r. r ++ b'/' ∷ last parts) same_start in
    let moved : join (p ∷ ps) ++ b'/' ∷ last parts ≡ before (p ∷ ps) ++ last parts =
      sym (append_assoc (join (p ∷ ps)) (b'/' ∷ []) (last parts)) in
    cut ∙ moved

-- An entry of a directory: its path is the directory's and a name without a slash, and the name does
-- not begin with a dot, unless the fragment that is looked for does.
abbrev pub Child : List Codes → Codes → FileReferenceCandidate → Type 0
Child prefix fragment entry =
    (name : Codes) × ((entry.path ≡ before prefix ++ name)
      × (Plain name × ((starts_hidden name && not (starts_hidden fragment)) ≡ false)))

is_child-Child :
    (prefix : List Codes) (fragment : Codes) (entry : FileReferenceCandidate)
    → is_child prefix fragment (segments entry.path) ≡ true
    → Child prefix fragment entry
unfolding is_child
is_child-Child prefix fragment entry h =
    let parts = segments entry.path in
    (
      last parts,
      (
        sym (join-segments entry.path)
            ∙ in_prefix-join prefix parts (ground (arith, h)) (ground (arith, h)),
        (last-Plain parts (segments-Plain entry.path), ground (arith, h)),
      ),
    )

module _ (P : FileReferenceCandidate → Type 0) where
  All-keep :
      (p : FileReferenceCandidate → Bool)
      → ((entry : FileReferenceCandidate) → p entry ≡ true → P entry)
      → (entries : List FileReferenceCandidate) → All P (keep p entries)
  All-keep p h [] = tt
  All-keep p h (entry ∷ entries) =
      (elim (p entry)
          as (λ b.
            p entry ≡ b
            → All P (elim b [ true ↦ entry ∷ keep p entries | false ↦ keep p entries ])) [
              | true ↦ λ e. (h entry e, All-keep p h entries)
              | false ↦ λ e. All-keep p h entries
            ])
        refl

  abbrev Good : Ranked → Type 0
  Good r = P r.candidate

  All-scored :
      (query : Codes) (entries : List FileReferenceCandidate)
      → All P entries
      → All Good (scored entries query)
  unfolding scored
  All-scored query [] i = tt
  All-scored query (entry ∷ entries) (i, j) =
      elim (score_candidate entry query)
        as (λ o. All Good (elim o [
          | none ↦ scored entries query
          | some s ↦ record { candidate = entry; score = s } ∷ scored entries query
        ])) [ none ↦ All-scored query entries j | some s ↦ (i, All-scored query entries j) ]

  All-candidates : (rs : List Ranked) → All Good rs → All P (map (λ r. r.candidate) rs)
  All-candidates [] i = tt
  All-candidates (r ∷ rs) (i, j) = (i, All-candidates rs j)

  All-rank_candidates :
      (query : Codes) (limit : ℕ) (entries : List FileReferenceCandidate)
      → All P entries
      → All P (rank_candidates entries query limit)
  unfolding rank_candidates ranked
  All-rank_candidates query limit entries i =
      All-candidates (first limit (sort_ranked query (scored entries query))) (
        All-first Good limit (sort_ranked query (scored entries query))
          (All-sort_ranked query Good (scored entries query) (All-scored query entries i)))

-- A directory query offers entries of that directory only, not what lies deeper, and none whose name
-- begins with a dot unless the fragment after the last slash does.
pub list_directory-Child :
    (entries : List FileReferenceCandidate) (excluded : List Codes) (directory fragment : Codes)
    (limit : ℕ)
    → All
        (Child (prefix_of directory) fragment)
        (list_directory entries excluded directory fragment limit)
unfolding list_directory
list_directory-Child entries excluded directory fragment limit =
    elim (any (λ part. any (same part) excluded) (segments directory))
      as (λ b. All (Child (prefix_of directory) fragment) (
        if b
        then []
        else rank_candidates
            (keep (λ entry. is_child (prefix_of directory) fragment (segments entry.path)) entries)
            fragment limit)) [
              | true ↦ tt
              | false ↦
                  All-rank_candidates (Child (prefix_of directory) fragment) fragment limit
                    (keep (λ entry. is_child (prefix_of directory) fragment (segments entry.path))
                      entries)
                    (All-keep (Child (prefix_of directory) fragment) _
                      (is_child-Child (prefix_of directory) fragment) entries)
            ]
