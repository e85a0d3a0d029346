-- ===== src/FileSearch/Ranking.antt =====
-- What a query is answered with: the best entries, in order.
use mathlib.Core.List.{Perm}
use mathlib.Core.List.Perm
use Prim.Native.Nat.{Ordering}
use dsh_yawn.Base.{
  ℕ, suc, min, ◌≡◌, refl, ap, subst, sym, true, List, [], ◌∷◌, ◌++◌, length, All, arith,
}
use dsh_yawn.Codes.{Codes}
use dsh_yawn.FileSearch.{
  FileReferenceCandidate, Ranked, or_compare, compare_ranked, insert_ranked, sort_ranked, scored,
  first, ranked,
}
use dsh_yawn.FileSearch.Ahead.{Ahead, compare_ranked-Ahead}
use dsh_yawn.FileSearch.Tiers.{Rated, scored-Rated}
use dsh_yawn.FileSearch.Order.{not_after, compare_ranked-flip, compare_ranked-Chains}

module _ (query : Codes) where
  -- One entry does not rank after another.
  abbrev NotAfter : Ranked → Ranked → Type 0
  NotAfter x y = not_after (compare_ranked query x y) ≡ true

  abbrev IsRanked : List Ranked → Type 0
  IsRanked [] = Unit
  IsRanked (x ∷ xs) = All (NotAfter x) xs × IsRanked xs

  NotAfter-trans : (x y z : Ranked) → NotAfter x y → NotAfter y z → NotAfter x z
  unfolding or_compare
  NotAfter-trans x y z e f = ground (arith, e, f, compare_ranked-Chains query x y z e f)

  NotAfter-other : (x y : Ranked) → compare_ranked query x y ≡ Ordering.gt → NotAfter y x
  NotAfter-other x y e = ground (arith, e, compare_ranked-flip query x y)

  All-NotAfter :
      (x y : Ranked) (ys : List Ranked) → NotAfter x y → All (NotAfter y) ys → All (NotAfter x) ys
  All-NotAfter x y [] e a = tt
  All-NotAfter x y (z ∷ zs) e (b, bs) = (NotAfter-trans x y z e b, All-NotAfter x y zs e bs)

  All-insert_ranked :
      (P : Ranked → Type 0) (x : Ranked) (ys : List Ranked)
      → P x
      → All P ys
      → All P (insert_ranked query x ys)
  unfolding insert_ranked
  All-insert_ranked P x [] p ps = (p, tt)
  All-insert_ranked P x (y ∷ ys) p (q, qs) =
      elim (compare_ranked query x y)
        as (λ o. All P (elim o [ Ordering.gt ↦ y ∷ insert_ranked query x ys | _ ↦ x ∷ y ∷ ys ])) [
          | Ordering.gt ↦ (q, All-insert_ranked P x ys p qs)
          | Ordering.lt ↦ (p, (q, qs))
          | Ordering.eq ↦ (p, (q, qs))
        ]

  insert_ranked-IsRanked :
      (x : Ranked) (ys : List Ranked) → IsRanked ys → IsRanked (insert_ranked query x ys)
  unfolding insert_ranked
  insert_ranked-IsRanked x [] i = (tt, tt)
  insert_ranked-IsRanked x (y ∷ ys) (a, i) =
      (elim (compare_ranked query x y)
          as (λ o.
            compare_ranked query x y ≡ o
            → IsRanked (elim o [ Ordering.gt ↦ y ∷ insert_ranked query x ys | _ ↦ x ∷ y ∷ ys ])) [
              | Ordering.gt ↦ λ e. (
                All-insert_ranked (NotAfter y) x ys (NotAfter-other x y e) a,
                insert_ranked-IsRanked x ys i,
              )
              | Ordering.lt ↦ λ e.
                  let f : NotAfter x y = ap not_after e in ((f, All-NotAfter x y ys f a), (a, i))
              | Ordering.eq ↦ λ e.
                  let f : NotAfter x y = ap not_after e in ((f, All-NotAfter x y ys f a), (a, i))
            ])
        refl

  pub All-sort_ranked :
      (P : Ranked → Type 0) (xs : List Ranked) → All P xs → All P (sort_ranked query xs)
  unfolding sort_ranked
  All-sort_ranked P [] ps = tt
  All-sort_ranked P (x ∷ xs) (p, ps) =
      All-insert_ranked P x (sort_ranked query xs) p (All-sort_ranked P xs ps)

  sort_ranked-IsRanked : (xs : List Ranked) → IsRanked (sort_ranked query xs)
  unfolding sort_ranked
  sort_ranked-IsRanked [] = tt
  sort_ranked-IsRanked (x ∷ xs) =
      insert_ranked-IsRanked x (sort_ranked query xs) (sort_ranked-IsRanked xs)

  insert_ranked-perm : (x : Ranked) (ys : List Ranked) → Perm (insert_ranked query x ys) (x ∷ ys)
  unfolding insert_ranked
  insert_ranked-perm x [] = Perm.rfl
  insert_ranked-perm x (y ∷ ys) =
      elim (compare_ranked query x y)
        as (λ o.
          Perm (elim o [ Ordering.gt ↦ y ∷ insert_ranked query x ys | _ ↦ x ∷ y ∷ ys ])
            (x ∷ y ∷ ys)) [
              | Ordering.gt ↦ Perm.trans (Perm.cons y (insert_ranked-perm x ys)) (Perm.swap x y ys)
              | Ordering.lt ↦ Perm.rfl
              | Ordering.eq ↦ Perm.rfl
            ]

  sort_ranked-perm : (xs : List Ranked) → Perm (sort_ranked query xs) xs
  unfolding sort_ranked
  sort_ranked-perm [] = Perm.rfl
  sort_ranked-perm (x ∷ xs) =
      Perm.trans (insert_ranked-perm x (sort_ranked query xs)) (Perm.cons x (sort_ranked-perm xs))

-- What `first` leaves out.
after : ℕ → List Ranked → List Ranked
after ℕ.zero xs = xs
after (ℕ.suc n) [] = []
after (ℕ.suc n) (x ∷ xs) = after n xs

first-after : (n : ℕ) (xs : List Ranked) → first n xs ++ after n xs ≡ xs
unfolding first after
first-after ℕ.zero xs = refl
first-after (ℕ.suc n) [] = refl
first-after (ℕ.suc n) (x ∷ xs) = ap (λ r. x ∷ r) (first-after n xs)

length-first : (n : ℕ) (xs : List Ranked) → length (first n xs) ≡ min n (length xs)
unfolding first
length-first ℕ.zero xs = omega arith
length-first (ℕ.suc n) [] = omega arith
length-first (ℕ.suc n) (x ∷ xs) = omega (arith, length-first n xs)

length-insert_ranked :
    (query : Codes) (x : Ranked) (ys : List Ranked)
    → length (insert_ranked query x ys) ≡ suc (length ys)
unfolding insert_ranked
length-insert_ranked query x [] = refl
length-insert_ranked query x (y ∷ ys) = ground (arith, length-insert_ranked query x ys)

length-sort_ranked : (query : Codes) (xs : List Ranked) → length (sort_ranked query xs) ≡ length xs
unfolding sort_ranked
length-sort_ranked query [] = refl
length-sort_ranked query (x ∷ xs) =
    ground (arith, length-insert_ranked query x (sort_ranked query xs), length-sort_ranked query xs)

pub All-first : (P : Ranked → Type 0) (n : ℕ) (xs : List Ranked) → All P xs → All P (first n xs)
unfolding first
All-first P ℕ.zero xs ps = tt
All-first P (ℕ.suc n) [] ps = tt
All-first P (ℕ.suc n) (x ∷ xs) (p, ps) = (p, All-first P n xs ps)

All-after : (P : Ranked → Type 0) (n : ℕ) (xs : List Ranked) → All P xs → All P (after n xs)
unfolding after
All-after P ℕ.zero xs ps = ps
All-after P (ℕ.suc n) [] ps = tt
All-after P (ℕ.suc n) (x ∷ xs) (p, ps) = All-after P n xs ps

first-IsRanked :
    (query : Codes) (n : ℕ) (xs : List Ranked) → IsRanked query xs → IsRanked query (first n xs)
unfolding first
first-IsRanked query ℕ.zero xs i = tt
first-IsRanked query (ℕ.suc n) [] i = tt
first-IsRanked query (ℕ.suc n) (x ∷ xs) (a, i) =
    (All-first (NotAfter query x) n xs a, first-IsRanked query n xs i)

first-NotAfter :
    (query : Codes) (n : ℕ) (xs : List Ranked)
    → IsRanked query xs
    → All (λ x. All (NotAfter query x) (after n xs)) (first n xs)
unfolding first after
first-NotAfter query ℕ.zero xs i = tt
first-NotAfter query (ℕ.suc n) [] i = tt
first-NotAfter query (ℕ.suc n) (x ∷ xs) (a, i) =
    (All-after (NotAfter query x) n xs a, first-NotAfter query n xs i)

All-Ahead :
    (query : Codes) (x : Ranked) (ys : List Ranked)
    → All (NotAfter query x) ys
    → All (Ahead query x) ys
All-Ahead query x [] a = tt
All-Ahead query x (y ∷ ys) (a, bs) = (compare_ranked-Ahead query x y a, All-Ahead query x ys bs)

abbrev pub InOrder : Codes → List Ranked → Type 0
InOrder query [] = Unit
InOrder query (x ∷ xs) = All (Ahead query x) xs × InOrder query xs

IsRanked-InOrder : (query : Codes) (xs : List Ranked) → IsRanked query xs → InOrder query xs
IsRanked-InOrder query [] i = tt
IsRanked-InOrder query (x ∷ xs) (a, i) = (All-Ahead query x xs a, IsRanked-InOrder query xs i)

All-omitted :
    (query : Codes) (omitted kept : List Ranked)
    → All (λ x. All (NotAfter query x) omitted) kept
    → All (λ x. All (Ahead query x) omitted) kept
All-omitted query omitted [] a = tt
All-omitted query omitted (x ∷ xs) (a, more) =
    (All-Ahead query x omitted a, All-omitted query omitted xs more)

-- The kept entries are the best ones: as many as the limit allows, each with the score of its match, in
-- order, and none that was left out ranks before one of them.
abbrev pub BestOf : Codes → ℕ → List Ranked → List Ranked → Type 0
BestOf query limit entries kept =
    (length kept ≡ min limit (length entries))
    × (All (Rated query) kept
        × (InOrder query kept
            × ((omitted : List Ranked) × (Perm (kept ++ omitted) entries
                  × All (λ x. All (Ahead query x) omitted) kept))))

-- A query is answered with the best of the candidates that match it: as many as the limit allows, each
-- ahead of those after it and of the matching candidates that are left out, by the higher score, then
-- directories first, then the shorter path where there is a query, then the path in code unit order. The
-- score is that of the best way to match: 1000 where the last segment is the query, 900 where it begins
-- with it, 700 where it has it inside, 500 where the path has it, 300 to 400 where the characters stand
-- in the path in order, case aside in each, and 25 more for a directory; without a query it is 0.
pub ranked-BestOf :
    (candidates : List FileReferenceCandidate) (query : Codes) (limit : ℕ)
    → BestOf query limit (scored candidates query) (ranked candidates query limit)
unfolding ranked
ranked-BestOf candidates query limit =
    let entries = sort_ranked query (scored candidates query) in
    let sorted = sort_ranked-IsRanked query (scored candidates query) in
    (
      ground
          (arith, length-first limit entries, length-sort_ranked query (scored candidates query)),
      (
        All-first (Rated query) limit entries (
            All-sort_ranked query (Rated query) (scored candidates query)
              (scored-Rated candidates query)),
        (
          IsRanked-InOrder query (first limit entries) (first-IsRanked query limit entries sorted),
          (
            after limit entries,
            (
              subst (λ xs. Perm xs (scored candidates query)) (sym (first-after limit entries))
                  (sort_ranked-perm query (scored candidates query)),
              All-omitted query (after limit entries) (first limit entries)
                  (first-NotAfter query limit entries sorted),
            ),
          ),
        ),
      ),
    )
