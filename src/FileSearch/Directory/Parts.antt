-- ===== src/FileSearch/Directory/Parts.antt =====
-- A text that is split at its slashes, and what its parts say of it.
use dsh_yawn.Base.{
  ℕ, suc, ◌≡◌, refl, ap, sym, ◌∙◌, Bool, true, false, not, List, [], ◌∷◌, ◌++◌, length, any, All,
  eqb, if◌then◌else◌, arith,
}
use dsh_yawn.Codes.{Codes}
use mathlib.Core.List.{append_assoc}
use dsh_yawn.FileSearch.{segments}
use dsh_yawn.FileSearch.Directory.{join, take, last}

-- The first part takes one more code, or an empty one stands before it.
join-cons : (c : ℕ) (s : Codes) (ss : List Codes) → join ((c ∷ s) ∷ ss) ≡ c ∷ join (s ∷ ss)
unfolding join
join-cons c s [] = refl
join-cons c s (t ∷ ss) = refl

-- What `segments` makes of one more code.
abbrev onto : ℕ → List Codes → List Codes
onto c [] = [] ∷ []
onto c (s ∷ ss) = if eqb c b'/' then [] ∷ s ∷ ss else (c ∷ s) ∷ ss

join-onto :
    (c : ℕ) (ss : List Codes) → (ss ≡ [] → ℕ.zero ≡ suc ℕ.zero) → join (onto c ss) ≡ c ∷ join ss
unfolding join
join-onto c [] e = ground (arith, e)
join-onto c (s ∷ ss) e = ground (arith, join-cons c s ss)

length-segments : (cs : Codes) → segments cs ≡ [] → ℕ.zero ≡ suc ℕ.zero
unfolding segments
length-segments [] e = ground (arith, e)
length-segments (c ∷ cs) e = ground (arith, e)

-- A text that was split at its slashes is put together again.
pub join-segments : (cs : Codes) → join (segments cs) ≡ cs
unfolding join segments
join-segments [] = refl
join-segments (c ∷ cs) =
    join-onto c (segments cs) (length-segments cs) ∙ ap (λ r. c ∷ r) (join-segments cs)

pub join-last :
    (n : ℕ) (ss : List Codes)
    → length ss ≡ suc (suc n)
    → join ss ≡ join (take (suc n) ss) ++ b'/' ∷ last ss
unfolding join take last
join-last n [] e = ground (arith, e)
join-last n (s ∷ []) e = ground (arith, e)
join-last ℕ.zero (s ∷ t ∷ []) e = refl
join-last ℕ.zero (s ∷ t ∷ u ∷ ss) e = ground (arith, e)
join-last (ℕ.suc n) (s ∷ t ∷ ss) e =
    let rest : s ++ b'/' ∷ join (t ∷ ss)
        ≡ s ++ b'/' ∷ (join (t ∷ take n ss) ++ b'/' ∷ last (t ∷ ss)) =
      ap (λ r. s ++ b'/' ∷ r) (join-last n (t ∷ ss) (omega (arith, e))) in
    let moved : s ++ b'/' ∷ (join (t ∷ take n ss) ++ b'/' ∷ last (t ∷ ss))
        ≡ (s ++ b'/' ∷ join (t ∷ take n ss)) ++ b'/' ∷ last (t ∷ ss) =
      sym (append_assoc s (b'/' ∷ join (t ∷ take n ss)) (b'/' ∷ last (t ∷ ss))) in
    rest ∙ moved

abbrev pub no_slash : Codes → Bool
no_slash cs = not (any (λ c. eqb c b'/') cs)

abbrev pub Plain : Codes → Type 0
Plain cs = no_slash cs ≡ true

onto-Plain : (c : ℕ) (ss : List Codes) → All Plain ss → All Plain (onto c ss)
onto-Plain c [] i = (refl, tt)
onto-Plain c (s ∷ ss) (i, j) =
    (elim (eqb c b'/')
        as (λ b. eqb c b'/' ≡ b → All Plain (if b then [] ∷ s ∷ ss else (c ∷ s) ∷ ss)) [
          | true ↦ λ e. (refl, (i, j))
          | false ↦ λ e. (ground (arith, e, i), j)
        ])
      refl

pub segments-Plain : (cs : Codes) → All Plain (segments cs)
unfolding segments
segments-Plain [] = (refl, tt)
segments-Plain (c ∷ cs) = onto-Plain c (segments cs) (segments-Plain cs)

pub last-Plain : (ss : List Codes) → All Plain ss → Plain (last ss)
unfolding last
last-Plain [] i = refl
last-Plain (s ∷ []) (i, j) = i
last-Plain (s ∷ t ∷ ss) (i, j) = last-Plain (t ∷ ss) j
