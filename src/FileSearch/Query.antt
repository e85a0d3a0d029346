-- ===== src/FileSearch/Query.antt =====
-- control-plane/src/workspaces/file-reference.ts: a query as it is typed after the `@`, taken apart at
-- its last slash. What a call of `snapshot` comes to, with its wish for a fresh tree, is the parameter
-- `entries_of`.
use dsh_yawn.Base.{
  ℕ, ◌≡◌, refl, Bool, true, false, Option, none, some, List, [], ◌∷◌, ◌++◌, map, All, eqb,
  if◌then◌else◌, arith,
}
use dsh_yawn.Codes.{Codes}
use dsh_yawn.FileSearch.{FileReferenceCandidate, list_matching}
use dsh_yawn.FileSearch.Directory.{prefix_of, list_directory}
use dsh_yawn.FileSearch.Directory.Parts.{Plain}
use dsh_yawn.FileSearch.Directory.Children.{Child, list_directory-Child}

-- `query.replaceAll("\\", "/")`
abbrev pub with_slashes : Codes → Codes
with_slashes = map λ c. if eqb c b'\\' then b'/' else c

-- `slice(0, slash + 1)` and `slice(slash + 1)` at the last slash, if there is one.
unfoldable split_slash : Codes → Option (Codes × Codes)
split_slash [] = none
split_slash (c ∷ cs) = elim (split_slash cs) [
  | some (directory, fragment) ↦ some (c ∷ directory, fragment)
  | none ↦ if eqb c b'/' then some (c ∷ [], cs) else none
]

module _ (entries_of : Bool → List FileReferenceCandidate) (excluded : List Codes) (limit : ℕ) where
  list_split : Option (Codes × Codes) → Codes → List FileReferenceCandidate
  list_split (some (directory, fragment)) query =
      list_directory (entries_of true) excluded directory fragment limit
  list_split none [] = list_directory (entries_of true) excluded [] [] limit
  list_split none (c ∷ cs) = list_matching (entries_of false) (c ∷ cs) limit

  pub list : (disposed : Bool) → Codes → List FileReferenceCandidate
  unfolding list_split split_slash
  list disposed query =
      let raw = with_slashes query in if disposed then [] else list_split (split_slash raw) raw

split_slash-Plain : (fragment : Codes) → Plain fragment → split_slash fragment ≡ none
unfolding split_slash
split_slash-Plain [] plain = refl
split_slash-Plain (c ∷ cs) plain = ground (arith, plain, split_slash-Plain cs)

split_slash-append :
    (directory fragment : Codes)
    → Plain fragment
    → split_slash (directory ++ b'/' ∷ fragment) ≡ some (directory ++ b'/' ∷ [], fragment)
unfolding split_slash
split_slash-append [] fragment plain = rw (split_slash-Plain fragment plain) refl
split_slash-append (c ∷ cs) fragment plain = rw (split_slash-append cs fragment plain) refl

-- A query that reads, with each backslash as a slash, a directory, a slash and a name without one is
-- offered entries of that directory only, not what lies deeper, and none whose name begins with a dot
-- unless the typed name does; also where the service has been disposed of or the directory is excluded.
pub list-Child :
    (entries_of : Bool → List FileReferenceCandidate) (excluded : List Codes) (limit : ℕ)
    (disposed : Bool) (query directory fragment : Codes)
    → with_slashes query ≡ directory ++ b'/' ∷ fragment
    → Plain fragment
    → All
        (Child (prefix_of (directory ++ b'/' ∷ [])) fragment)
        (list entries_of excluded limit disposed query)
unfolding list list_split
list-Child entries_of excluded limit true query directory fragment e plain = tt
list-Child entries_of excluded limit false query directory fragment e plain =
    rw e (rw (split_slash-append directory fragment plain) (list_directory-Child _ _ _ _ _))
