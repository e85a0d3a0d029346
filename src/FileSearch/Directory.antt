-- ===== src/FileSearch/Directory.antt =====
-- control-plane/src/workspaces/file-reference.ts: what a query for a directory is answered with.
pub mod Parts
pub mod Children
use dsh_yawn.Base.{
  ℕ, ◌+◌, Bool, true, false, not, ◌&&◌, ◌||◌, List, [], ◌∷◌, ◌++◌, length, keep, any, eqb,
  if◌then◌else◌,
}
use dsh_yawn.Codes.{Codes, same}
use dsh_yawn.FileSearch.{FileReferenceCandidate, segments, starts_hidden, rank_candidates}

-- `texts.join("/")`
pub join : List Codes → Codes
join [] = []
join (s ∷ []) = s
join (s ∷ t ∷ ss) = s ++ b'/' ∷ join (t ∷ ss)

-- `texts.slice(0, n)`
unfoldable pub take : ℕ → List Codes → List Codes
take ℕ.zero ss = []
take (ℕ.suc n) [] = []
take (ℕ.suc n) (s ∷ ss) = s ∷ take n ss

-- `texts[texts.length - 1]`
pub last : List Codes → Codes
last [] = []
last (s ∷ []) = s
last (s ∷ t ∷ ss) = last (t ∷ ss)

is_nonempty : Codes → Bool
is_nonempty [] = false
is_nonempty (c ∷ cs) = true

-- The parts of a directory that say where it is.
pub prefix_of : Codes → List Codes
unfolding is_nonempty
prefix_of directory = keep is_nonempty (segments directory)

pub in_prefix : List Codes → List Codes → Bool
unfolding join take
in_prefix [] parts = true
in_prefix (p ∷ ps) parts = same (join (take (length (p ∷ ps)) parts)) (join (p ∷ ps))

pub is_child : List Codes → Codes → List Codes → Bool
unfolding in_prefix last
is_child prefix fragment parts =
    eqb (length parts) (length prefix + 1)
    && (in_prefix prefix parts && not (starts_hidden (last parts) && not (starts_hidden fragment)))

pub list_directory :
    List FileReferenceCandidate
    → (excluded : List Codes) → (directory fragment : Codes) → ℕ
    → List FileReferenceCandidate
unfolding prefix_of is_child
list_directory entries excluded directory fragment limit =
    if any (λ part. any (same part) excluded) (segments directory)
    then []
    else rank_candidates
        (keep (λ entry. is_child (prefix_of directory) fragment (segments entry.path)) entries)
        fragment limit
