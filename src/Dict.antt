-- ===== src/Dict.antt =====
-- The string-keyed `Map` and `Record` of the source: entries in insertion order. A write to a key
-- that is present keeps its place, as JavaScript's `Map.set` does.
use dsh_yawn.Base.{
  String, ◌≡◌, refl, Bool, true, false, Option, none, some, List, [], ◌∷◌, map, arith, ◌==◌, eq_iff,
  if◌then◌else◌,
}

abbrev pub Dict {ℓ} : Type ℓ → Type ℓ
Dict V = List (String × V)

module _ {ℓ} {V : Type ℓ} where
  -- `map.get(k)`
  unfoldable pub get : Dict V → String → Option V
  get [] k = none
  get ((j, v) ∷ m) k = if j == k then some v else get m k

  -- `map.set(k, v)`
  unfoldable pub put : Dict V → String → V → Dict V
  put [] k v = (k, v) ∷ []
  put ((j, w) ∷ m) k v = if j == k then (j, v) ∷ m else (j, w) ∷ put m k v

  -- `map.delete(k)`
  unfoldable pub delete : Dict V → String → Dict V
  delete [] k = []
  delete ((j, w) ∷ m) k = let rest = delete m k in if j == k then rest else (j, w) ∷ rest

  -- `map.has(k)`
  abbrev pub has : Dict V → String → Bool
  has m k = elim (get m k) [ none ↦ false | some _ ↦ true ]

  abbrev pub keys : Dict V → List String
  keys = map λ e. e.0

  abbrev pub values : Dict V → List V
  values = map λ e. e.1

  pub get-put :
      (m : Dict V) (k j : String) (v : V) → get (put m k v) j ≡ (if k == j then some v else get m j)
  unfolding get put
  get-put [] k j v = refl
  get-put ((i, w) ∷ m) k j v = ground (arith, eq_iff k j, eq_iff i k, eq_iff i j, get-put m k j v)

  pub get-delete :
      (m : Dict V) (k j : String) → get (delete m k) j ≡ (if k == j then none else get m j)
  unfolding get delete
  get-delete [] k j = ground arith
  get-delete ((i, w) ∷ m) k j = ground (arith, eq_iff k j, eq_iff i k, eq_iff i j, get-delete m k j)

pub get-empty {ℓ} : {V : Type ℓ} (k : String) → get {V = V} [] k ≡ none
unfolding get
get-empty k = refl

pub get-put_self {ℓ} : {V : Type ℓ} (m : Dict V) (k : String) (v : V) → get (put m k v) k ≡ some v
get-put_self m k v = ground (arith, get-put m k k v, eq_iff k k)

pub get-put_ne {ℓ} :
    {V : Type ℓ} (m : Dict V) (k j : String) (v : V) → ¬ (k ≡ j) → get (put m k v) j ≡ get m j
get-put_ne m k j v h = ground (arith, get-put m k j v, eq_iff k j)

pub get-delete_self {ℓ} : {V : Type ℓ} (m : Dict V) (k : String) → get (delete m k) k ≡ none
get-delete_self m k = ground (arith, get-delete m k k, eq_iff k k)

pub get-delete_ne {ℓ} :
    {V : Type ℓ} (m : Dict V) (k j : String) → ¬ (k ≡ j) → get (delete m k) j ≡ get m j
get-delete_ne m k j h = ground (arith, get-delete m k j, eq_iff k j)
