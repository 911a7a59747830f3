-- ===== src/Map/Laws.antt =====
-- The laws of the maps: what a key holds after each update, and that keys stay distinct.
use roommate_csi.Prelude.{◌≡◌, refl, ◌∙◌, none, some, or_else, List, [], ◌∷◌, arith, if◌then◌else◌}
use roommate_csi.Prelude.Bytes.{Str, str_eq, str_eq_iff, str_eq_refl}
use roommate_csi.Map.{Map, lookup, delete, insert, insert_all, delete_all, IsDistinct, member}

module _ {ℓ} {V : Type ℓ} where
  pub lookup-delete :
      (j k : Str) (m : Map V) → lookup j (delete k m) ≡ (if str_eq k j then none else lookup j m)
  unfolding lookup delete
  lookup-delete j k [] = ground arith
  lookup-delete j k ((i, v) ∷ m) =
      ground (arith, lookup-delete j k m, str_eq_iff i k, str_eq_iff i j, str_eq_iff k j)

  pub lookup-insert :
      (j k : Str) (v : V) (m : Map V)
      → lookup j (insert k v m) ≡ (if str_eq k j then some v else lookup j m)
  unfolding insert lookup
  lookup-insert j k v m = ground (arith, lookup-delete j k m)

  pub lookup-delete_same : (k : Str) (m : Map V) → lookup k (delete k m) ≡ none
  lookup-delete_same k m = lookup-delete k k m ∙ rw (str_eq_refl k)

  pub lookup-insert_same : (k : Str) (v : V) (m : Map V) → lookup k (insert k v m) ≡ some v
  lookup-insert_same k v m = lookup-insert k k v m ∙ rw (str_eq_refl k)

  pub delete-IsDistinct : (k : Str) (m : Map V) → IsDistinct m → IsDistinct (delete k m)
  unfolding delete
  delete-IsDistinct k [] d = tt
  delete-IsDistinct k ((i, v) ∷ m) d =
      ground (arith, delete-IsDistinct k m d.1, lookup-delete i k m, str_eq_iff i k)

  pub insert-IsDistinct : (k : Str) (v : V) (m : Map V) → IsDistinct m → IsDistinct (insert k v m)
  unfolding insert
  insert-IsDistinct k v m d = (lookup-delete k k m ∙ rw (str_eq_refl k), delete-IsDistinct k m d)

  pub insert_all-IsDistinct : (set m : Map V) → IsDistinct m → IsDistinct (insert_all set m)
  unfolding insert_all
  insert_all-IsDistinct [] m d = d
  insert_all-IsDistinct ((k, v) ∷ set) m d =
      insert_all-IsDistinct set (insert k v m) (insert-IsDistinct k v m d)

  pub delete_all-IsDistinct :
      (ks : List Str) (m : Map V) → IsDistinct m → IsDistinct (delete_all ks m)
  unfolding delete_all
  delete_all-IsDistinct [] m d = d
  delete_all-IsDistinct (k ∷ ks) m d =
      delete_all-IsDistinct ks (delete k m) (delete-IsDistinct k m d)

  -- The last write of a key wins, so a map with distinct keys is laid over another.
  pub lookup-insert_all :
      (j : Str) (set m : Map V)
      → IsDistinct set
      → lookup j (insert_all set m) ≡ or_else (lookup j set) (lookup j m)
  unfolding insert_all lookup
  lookup-insert_all j [] m d = refl
  lookup-insert_all j ((k, v) ∷ set) m d =
      ground
        (arith, lookup-insert_all j set (insert k v m) d.1, lookup-insert j k v m, str_eq_iff k j)

  pub lookup-delete_all :
      (j : Str) (ks : List Str) (m : Map V)
      → lookup j (delete_all ks m) ≡ (if member j ks then none else lookup j m)
  unfolding delete_all member
  lookup-delete_all j [] m = refl
  lookup-delete_all j (k ∷ ks) m =
      ground (arith, lookup-delete_all j ks (delete k m), lookup-delete j k m)

  pub singleton-IsDistinct : (k : Str) (v : V) → IsDistinct ((k, v) ∷ [])
  unfolding lookup
  singleton-IsDistinct k v = (refl, tt)
