-- ===== src/Codes/Tables.antt =====
-- Records and maps of the source whose keys are texts as lists of codes: entries in insertion order.
use dsh_yawn.Base.{
  ◌≡◌, refl, Option, none, some, List, [], ◌∷◌, ◌++◌, is_some, or_default, or_else, if◌then◌else◌,
  arith,
}
use dsh_yawn.Codes.{Codes, same, same_iff}

abbrev pub Table {ℓ} : Type ℓ → Type ℓ
Table V = List (Codes × V)

module _ {ℓ} {V : Type ℓ} where
  -- `table[key]`
  unfoldable pub lookup : Table V → Codes → Option V
  lookup [] k = none
  lookup ((j, v) ∷ m) k = if same j k then some v else lookup m k

  -- `table[key] = value`
  pub insert : Table V → Codes → V → Table V
  insert [] k v = (k, v) ∷ []
  insert ((j, w) ∷ m) k v = if same j k then (j, v) ∷ m else (j, w) ∷ insert m k v

  -- `delete table[key]`
  pub drop_key : Table V → Codes → Table V
  drop_key [] k = []
  drop_key ((j, w) ∷ m) k = let rest = drop_key m k in if same j k then rest else (j, w) ∷ rest

  override : Table V → Table V → Table V
  unfolding lookup
  override [] right = []
  override ((k, v) ∷ left) right = (k, or_default (lookup right k) v) ∷ override left right

  absent_from : Table V → Table V → Table V
  unfolding lookup
  absent_from left [] = []
  absent_from left ((k, v) ∷ right) =
      let rest = absent_from left right in if is_some (lookup left k) then rest else (k, v) ∷ rest

  -- `{ ...left, ...right }`: a key of both keeps its place and takes the value of `right`.
  pub spread : Table V → Table V → Table V
  unfolding override absent_from
  spread left right = override left right ++ absent_from left right

  pub lookup-insert :
      (m : Table V) (k j : Codes) (v : V)
      → lookup (insert m k v) j ≡ (if same k j then some v else lookup m j)
  unfolding lookup insert
  lookup-insert [] k j v = refl
  lookup-insert ((i, w) ∷ m) k j v =
      ground (arith, same_iff k j, same_iff i k, same_iff i j, lookup-insert m k j v)

  pub lookup-drop_key :
      (m : Table V) (k j : Codes)
      → lookup (drop_key m k) j ≡ (if same k j then none else lookup m j)
  unfolding lookup drop_key
  lookup-drop_key [] k j = ground arith
  lookup-drop_key ((i, w) ∷ m) k j =
      ground (arith, same_iff k j, same_iff i k, same_iff i j, lookup-drop_key m k j)

  lookup-append :
      (xs ys : Table V) (k : Codes) → lookup (xs ++ ys) k ≡ or_else (lookup xs k) (lookup ys k)
  unfolding lookup
  lookup-append [] ys k = refl
  lookup-append ((j, v) ∷ xs) ys k = ground (arith, lookup-append xs ys k)

  lookup-override :
      (left right : Table V) (k : Codes)
      → lookup (override left right) k
        ≡ elim (lookup left k) [ none ↦ none | some v ↦ some (or_default (lookup right k) v) ]
  unfolding lookup override
  lookup-override [] right k = refl
  lookup-override ((j, v) ∷ left) right k =
      ground (arith, same_iff j k, lookup-override left right k)

  lookup-absent_from :
      (left right : Table V) (k : Codes)
      → lookup (absent_from left right) k
        ≡ (if is_some (lookup left k) then none else lookup right k)
  unfolding lookup absent_from
  lookup-absent_from left [] k = ground arith
  lookup-absent_from left ((j, v) ∷ right) k =
      ground (arith, same_iff j k, lookup-absent_from left right k)

  pub lookup-spread :
      (left right : Table V) (k : Codes)
      → lookup (spread left right) k ≡ or_else (lookup right k) (lookup left k)
  unfolding spread
  lookup-spread left right k = ground (
    arith,
    lookup-append (override left right) (absent_from left right) k,
    lookup-override left right k,
    lookup-absent_from left right k,
  )
