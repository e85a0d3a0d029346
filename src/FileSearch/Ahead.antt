-- ===== src/FileSearch/Ahead.antt =====
-- Which of two entries ranks first.
use Prim.Native.Nat.{Ordering, compare}
use dsh_yawn.Base.{
  ℕ, ◌<◌, ◌⊎◌, inl, inr, ltb, Bool-cases, ◌≡◌, refl, subst, sym, true, [], ◌∷◌, length, arith,
}
use dsh_yawn.Codes.{Codes}
use dsh_yawn.FileSearch.{
  Kind, file, directory, Ranked, kind_rank, compare_text, compare_length, or_compare,
  compare_ranked,
}
use dsh_yawn.FileSearch.Order.{not_after}

-- One path comes no later than another in the order of code units.
pub data TextUpTo : Codes → Codes → Type 0 where
  shorter : (ys : Codes) → TextUpTo [] ys
  smaller : (x y : ℕ) (xs ys : Codes) → x < y → TextUpTo (x ∷ xs) (y ∷ ys)
  level : (x : ℕ) (xs ys : Codes) → TextUpTo xs ys → TextUpTo (x ∷ xs) (x ∷ ys)

-- A directory and a file.
abbrev pub DirectoryFirst : Kind → Kind → Type 0
DirectoryFirst directory file = Unit
DirectoryFirst _ _ = ⊥

abbrev pub Shorter : Codes → Codes → Codes → Type 0
Shorter [] left right = ⊥
Shorter (q ∷ qs) left right = length left < length right

abbrev pub SameLength : Codes → Codes → Codes → Type 0
SameLength [] left right = Unit
SameLength (q ∷ qs) left right = length left ≡ length right

-- One entry ranks no later than another: it has the higher score; with equal scores it is a directory
-- and the other a file; of one kind, its path is shorter, where there is a query; and with paths of one
-- length, or without a query, its path comes no later.
abbrev pub Ahead : Codes → Ranked → Ranked → Type 0
Ahead query x y =
    (y.score < x.score)
    ⊎ ((x.score ≡ y.score)
        × (DirectoryFirst x.candidate.kind y.candidate.kind
            ⊎ ((x.candidate.kind ≡ y.candidate.kind)
                × (Shorter query x.candidate.path y.candidate.path
                    ⊎ (SameLength query x.candidate.path y.candidate.path
                        × TextUpTo x.candidate.path y.candidate.path)))))

-- A comparison of numbers that counts first.
first_of :
    (a b : ℕ) (rest : Ordering)
    → not_after (or_compare (compare a b) rest) ≡ true
    → (a < b) ⊎ ((a ≡ b) × (not_after rest ≡ true))
unfolding or_compare
first_of a b rest e = elim (Bool-cases (ltb a b)) [
  | inl less ↦ inl (ground (arith, less))
  | inr more ↦ inr (ground (arith, e, more), ground (arith, e, more))
]

compare_text-TextUpTo : (a b : Codes) → not_after (compare_text a b) ≡ true → TextUpTo a b
unfolding compare_text or_compare
compare_text-TextUpTo [] ys e = shorter ys
compare_text-TextUpTo (x ∷ xs) [] e = ground (arith, e)
compare_text-TextUpTo (x ∷ xs) (y ∷ ys) e = elim (first_of x y (compare_text xs ys) e) [
  | inl less ↦ smaller x y xs ys less
  | inr (same_code, later) ↦
      subst (λ z. TextUpTo (x ∷ xs) (z ∷ ys)) same_code
        (level x xs ys (compare_text-TextUpTo xs ys later))
]

lengths_of :
    (query a b : Codes)
    → not_after (or_compare (compare_length query a b) (compare_text a b)) ≡ true
    → Shorter query a b ⊎ (SameLength query a b × TextUpTo a b)
unfolding compare_length or_compare
lengths_of [] a b e = inr (tt, compare_text-TextUpTo a b e)
lengths_of (q ∷ qs) a b e = elim (first_of (length a) (length b) (compare_text a b) e) [
  | inl less ↦ inl less
  | inr (level_length, later) ↦ inr (level_length, compare_text-TextUpTo a b later)
]

kinds_of :
    (k l : Kind) (rest : Ordering)
    → not_after (or_compare (compare (kind_rank k) (kind_rank l)) rest) ≡ true
    → DirectoryFirst k l ⊎ ((k ≡ l) × (not_after rest ≡ true))
unfolding kind_rank or_compare
kinds_of directory directory rest e = inr (refl, e)
kinds_of directory file rest e = inl tt
kinds_of file directory rest e = ground (arith, e)
kinds_of file file rest e = inr (refl, e)

pub compare_ranked-Ahead :
    (query : Codes) (x y : Ranked) → not_after (compare_ranked query x y) ≡ true → Ahead query x y
unfolding compare_ranked
compare_ranked-Ahead query x y e = elim (first_of y.score x.score _ e) [
  | inl higher ↦ inl higher
  | inr (same_score, e1) ↦ inr (
    sym same_score,
    elim (kinds_of x.candidate.kind y.candidate.kind _ e1) [
      | inl before ↦ inl before
      | inr (same_kind, e2) ↦ inr (same_kind, lengths_of query x.candidate.path y.candidate.path e2)
    ],
  )
]
