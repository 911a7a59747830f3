-- ===== src/Snapshot/Content.antt =====
-- What `With` and `Size` of pkg/objectfs/snapshot.go say of each key.
use roommate_csi.Prelude.{
  ℕ, ◌+◌, ◌≡◌, Option, none, some, or_else, List, [], ◌∷◌, length, arith, if◌then◌else◌,
}
use roommate_csi.Prelude.Bytes.{Bytes, Str, str_eq_iff}
use roommate_csi.Map.{Map, lookup, delete, insert_all, IsDistinct, member}
use roommate_csi.Map.Laws.{
  lookup-insert_all, lookup-delete_all, insert_all-IsDistinct, delete_all-IsDistinct,
}
use roommate_csi.Snapshot.{Snapshot, get, total, size, with_changes}

-- What a merge patch leaves under a key that held `old`.
unfoldable pub merged : Map Bytes → List Str → Str → Option Bytes → Option Bytes
merged set del k old = if member k del then none else or_else (lookup k set) old

-- The derived snapshot holds, under every key, what a merge patch of the same change leaves there:
-- nothing under a deleted key, else the value set, else what was there before.
pub get-with_changes :
    (s : Snapshot) (set : Map Bytes) (del : List Str) (k : Str)
    → IsDistinct set
    → get (with_changes s set del) k ≡ merged set del k (get s k)
unfolding get with_changes merged
get-with_changes s set del k d =
    ground (
      arith,
      lookup-delete_all k del (insert_all set s.entries),
      lookup-insert_all k set s.entries d,
    )

pub with_changes-IsDistinct :
    (s : Snapshot) (set : Map Bytes) (del : List Str)
    → IsDistinct s.entries
    → IsDistinct (with_changes s set del).entries
unfolding with_changes
with_changes-IsDistinct s set del d =
    delete_all-IsDistinct del (insert_all set s.entries) (insert_all-IsDistinct set s.entries d)

-- The bytes of a value that may be missing.
abbrev pub length_of : Option Bytes → ℕ
length_of none = 0
length_of (some v) = length v

pub total-delete :
    (k : Str) (m : Map Bytes) → IsDistinct m → total (delete k m) + length_of (lookup k m) ≡ total m
unfolding total delete lookup
total-delete k [] d = omega arith
total-delete k ((j, v) ∷ m) d = ground (arith, total-delete k m d.1, str_eq_iff j k)

-- Writing one key changes the size by the difference between the new value and the old.
pub size-with_changes :
    (s : Snapshot) (k : Str) (v : Bytes)
    → IsDistinct s.entries
    → size (with_changes s ((k, v) ∷ []) []) + length_of (get s k) ≡ size s + length v
unfolding size with_changes get total
size-with_changes s k v d = omega (arith, total-delete k s.entries d)
