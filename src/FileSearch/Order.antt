-- ===== src/FileSearch/Order.antt =====
-- The order of the ranking: total, and what it says of two entries follows from what it says of
-- both and a third.
use Prim.Native.Nat.{Ordering, compare}
use dsh_yawn.Base.{ℕ, ◌≡◌, refl, Bool, true, false, [], ◌∷◌, length, arith}
use dsh_yawn.Codes.{Codes}
use dsh_yawn.FileSearch.{
  Ranked, kind_rank, or_compare, compare_text, compare_length, compare_ranked,
}

abbrev pub flip : Ordering → Ordering
flip Ordering.lt = Ordering.gt
flip Ordering.eq = Ordering.eq
flip Ordering.gt = Ordering.lt

abbrev pub not_after : Ordering → Bool
not_after Ordering.gt = false
not_after _ = true

-- Two comparisons of neighbours decide the one of the ends.
abbrev Chains : Ordering → Ordering → Ordering → Type 0
Chains ab bc ac = not_after ab ≡ true → not_after bc ≡ true → ac ≡ or_compare ab bc

flip-or_compare : (o p : Ordering) → flip (or_compare o p) ≡ or_compare (flip o) (flip p)
unfolding or_compare
flip-or_compare Ordering.lt p = refl
flip-or_compare Ordering.eq p = refl
flip-or_compare Ordering.gt p = refl

or_compare-flip :
    (o p o' p' : Ordering) → o' ≡ flip o → p' ≡ flip p → or_compare o' p' ≡ flip (or_compare o p)
or_compare-flip o p o' p' e f = ground (arith, e, f, flip-or_compare o p)

or_compare-Chains :
    (ab bc ac ab' bc' ac' : Ordering)
    → Chains ab bc ac
    → Chains ab' bc' ac'
    → Chains (or_compare ab ab') (or_compare bc bc') (or_compare ac ac')
unfolding or_compare
or_compare-Chains ab bc ac ab' bc' ac' h h' e f = ground (arith, h, h', e, f)

compare-flip : (a b : ℕ) → compare b a ≡ flip (compare a b)
compare-flip a b = ground arith

compare-Chains : (a b c : ℕ) → Chains (compare a b) (compare b c) (compare a c)
unfolding or_compare
compare-Chains a b c e f = ground (arith, e, f)

falling-Chains : (a b c : ℕ) → Chains (compare b a) (compare c b) (compare c a)
unfolding or_compare
falling-Chains a b c e f = ground (arith, e, f)

compare_text-flip : (a b : Codes) → compare_text b a ≡ flip (compare_text a b)
unfolding compare_text
compare_text-flip [] [] = refl
compare_text-flip [] (y ∷ ys) = refl
compare_text-flip (x ∷ xs) [] = refl
compare_text-flip (x ∷ xs) (y ∷ ys) = ground (
  arith,
  compare-flip x y,
  compare_text-flip xs ys,
  flip-or_compare (compare x y) (compare_text xs ys),
)

compare_text-Chains :
    (a b c : Codes) → Chains (compare_text a b) (compare_text b c) (compare_text a c)
unfolding compare_text or_compare
compare_text-Chains [] [] c e f = refl
compare_text-Chains [] (y ∷ ys) [] e f = ground (arith, f)
compare_text-Chains [] (y ∷ ys) (z ∷ zs) e f = refl
compare_text-Chains (x ∷ xs) [] c e f = ground (arith, e)
compare_text-Chains (x ∷ xs) (y ∷ ys) [] e f = ground (arith, f)
compare_text-Chains (x ∷ xs) (y ∷ ys) (z ∷ zs) e f =
    or_compare-Chains (compare x y) (compare y z) (compare x z) (compare_text xs ys)
      (compare_text ys zs) (compare_text xs zs) (compare-Chains x y z)
      (compare_text-Chains xs ys zs) e f

compare_length-flip :
    (query a b : Codes) → compare_length query b a ≡ flip (compare_length query a b)
unfolding compare_length
compare_length-flip [] a b = refl
compare_length-flip (q ∷ qs) a b = compare-flip (length a) (length b)

compare_length-Chains :
    (query a b c : Codes)
    → Chains (compare_length query a b) (compare_length query b c) (compare_length query a c)
unfolding compare_length or_compare
compare_length-Chains [] a b c e f = refl
compare_length-Chains (q ∷ qs) a b c e f = compare-Chains (length a) (length b) (length c) e f

-- The comparison read from the right is the comparison turned over.
pub compare_ranked-flip :
    (query : Codes) (a b : Ranked) → compare_ranked query b a ≡ flip (compare_ranked query a b)
unfolding compare_ranked
compare_ranked-flip query a b =
    or_compare-flip (compare b.score a.score) _ (compare a.score b.score) _
      (compare-flip b.score a.score)
      (or_compare-flip (compare (kind_rank a.candidate.kind) (kind_rank b.candidate.kind)) _
        (compare (kind_rank b.candidate.kind) (kind_rank a.candidate.kind)) _
        (compare-flip (kind_rank a.candidate.kind) (kind_rank b.candidate.kind))
        (or_compare-flip (compare_length query a.candidate.path b.candidate.path) _
          (compare_length query b.candidate.path a.candidate.path) _
          (compare_length-flip query a.candidate.path b.candidate.path)
          (compare_text-flip a.candidate.path b.candidate.path)))

pub compare_ranked-Chains :
    (query : Codes) (a b c : Ranked)
    → Chains (compare_ranked query a b) (compare_ranked query b c) (compare_ranked query a c)
unfolding compare_ranked
compare_ranked-Chains query a b c e f =
    or_compare-Chains (compare b.score a.score) (compare c.score b.score) (compare c.score a.score)
      _ _ _ (falling-Chains a.score b.score c.score)
      (or_compare-Chains (compare (kind_rank a.candidate.kind) (kind_rank b.candidate.kind))
        (compare (kind_rank b.candidate.kind) (kind_rank c.candidate.kind))
        (compare (kind_rank a.candidate.kind) (kind_rank c.candidate.kind)) _ _ _
        (compare-Chains (kind_rank a.candidate.kind) (kind_rank b.candidate.kind)
          (kind_rank c.candidate.kind))
        (or_compare-Chains (compare_length query a.candidate.path b.candidate.path)
          (compare_length query b.candidate.path c.candidate.path)
          (compare_length query a.candidate.path c.candidate.path) _ _ _
          (compare_length-Chains query a.candidate.path b.candidate.path c.candidate.path)
          (compare_text-Chains a.candidate.path b.candidate.path c.candidate.path)))
      e f
