-- ===== src/Map.antt =====
-- Go's `map[string]V`, as an association list, and the orders of iteration that the code does not
-- depend on. Every map of the program has string keys.
pub mod Laws
use roommate_csi.Prelude.{◌≡◌, Bool, false, ◌||◌, Option, none, some, List, [], ◌∷◌, if◌then◌else◌}
use roommate_csi.Prelude.Bytes.{Str, str_eq}

module _ {ℓ} where
  abbrev pub Map : Type ℓ → Type ℓ
  Map V = List (Str × V)

  abbrev pub empty : {V : Type ℓ} → Map V
  empty = []

module _ {ℓ} {V : Type ℓ} where
  -- v, ok := m[k]
  unfoldable pub lookup : Str → Map V → Option V
  lookup k [] = none
  lookup k ((j, v) ∷ m) = let rest = lookup k m in if str_eq j k then some v else rest

  -- delete(m, k)
  unfoldable pub delete : Str → Map V → Map V
  delete k [] = []
  delete k ((j, v) ∷ m) = let rest = delete k m in if str_eq j k then rest else (j, v) ∷ rest

  -- m[k] = v
  unfoldable pub insert : Str → V → Map V → Map V
  unfolding delete
  insert k v m = (k, v) ∷ delete k m

  -- for k, v := range set { m[k] = v }
  unfoldable pub insert_all : Map V → Map V → Map V
  unfolding insert
  insert_all [] m = m
  insert_all ((k, v) ∷ set) m = insert_all set (insert k v m)

  -- for _, k := range ks { delete(m, k) }
  unfoldable pub delete_all : List Str → Map V → Map V
  unfolding delete
  delete_all [] m = m
  delete_all (k ∷ ks) m = delete_all ks (delete k m)

  -- A key stands in the list once.
  abbrev pub IsDistinct : Map V → Type ℓ
  IsDistinct [] = Unit
  IsDistinct ((k, v) ∷ m) = (lookup k m ≡ none) × IsDistinct m

unfoldable pub member : Str → List Str → Bool
member k [] = false
member k (j ∷ js) = str_eq j k || member k js
