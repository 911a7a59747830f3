-- ===== src/Snapshot.antt =====
-- pkg/objectfs/snapshot.go: an immutable view of one object. The copies that `Get` and `With` make
-- are values here. `sort.Strings` is modelled by an insertion sort on bytes.
pub mod Content
pub mod Order
pub mod Contents
use roommate_csi.Prelude.{ℕ, ◌+◌, ◌^◌, Option, List, [], ◌∷◌, length, if◌then◌else◌}
use roommate_csi.Prelude.Bytes.{Bytes, Str, str_ltb}
use roommate_csi.Map.{Map, lookup, insert_all, delete_all}

abbrev pub max_object_bytes : ℕ
max_object_bytes = 2 ^ 20

pub record Snapshot : Type 0 where
  pub entries : Map Bytes
  pub resource_version : Str
  pub fetched_at : ℕ

unfoldable pub get : Snapshot → Str → Option Bytes
unfolding lookup
get s key = lookup key s.entries

insert_sorted : Str → List Str → List Str
insert_sorted k [] = k ∷ []
insert_sorted k (j ∷ js) =
    let rest = insert_sorted k js in if str_ltb j k then j ∷ rest else k ∷ j ∷ js

unfoldable pub sort_strings : List Str → List Str
unfolding insert_sorted
sort_strings [] = []
sort_strings (k ∷ ks) = insert_sorted k (sort_strings ks)

unfoldable pub map_keys : Map Bytes → List Str
map_keys [] = []
map_keys ((k, v) ∷ m) = k ∷ map_keys m

unfoldable pub keys : Snapshot → List Str
unfolding sort_strings map_keys
keys s = sort_strings (map_keys s.entries)

unfoldable pub total : Map Bytes → ℕ
total [] = 0
total ((k, v) ∷ m) = length v + total m

unfoldable pub size : Snapshot → ℕ
unfolding total
size s = total s.entries

unfoldable pub with_changes : Snapshot → Map Bytes → List Str → Snapshot
unfolding insert_all delete_all
with_changes s set del = record {
  entries = delete_all del (insert_all set s.entries);
  resource_version = [];
  fetched_at = s.fetched_at;
}
