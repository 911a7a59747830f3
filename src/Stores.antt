-- ===== src/Stores.antt =====
-- pkg/objectfs/store_secret.go and pkg/objectfs/store_configmap.go: how an object's data becomes a
-- snapshot, and the body of the merge patch that changes it. JSON's null is `none` in a body, and so
-- is a nil slice. The clock is a parameter.
pub mod Merging
pub mod Utf8
pub mod Client
use roommate_csi.Prelude.{ℕ, Bool, true, false, Option, none, some, List, [], ◌∷◌, if◌then◌else◌}
use roommate_csi.Prelude.Bytes.{Bytes, Str}
use roommate_csi.Map.{Map, insert, insert_all}
use roommate_csi.Snapshot.{Snapshot}
use roommate_csi.State.{Slice, bytes_of}
use roommate_csi.Stores.Utf8.{valid_utf8}

pub record Secret : Type 0 where
  pub entries : Map Bytes
  pub resource_version : Str

pub record ConfigMap : Type 0 where
  pub entries : Map Str
  pub binary_data : Map Bytes
  pub resource_version : Str

unfoldable pub decode_secret : ℕ → Secret → Snapshot
unfolding insert_all
decode_secret now obj = record {
  entries = insert_all obj.entries [];
  resource_version = obj.resource_version;
  fetched_at = now;
}

unfoldable pub decode_config_map : ℕ → ConfigMap → Snapshot
unfolding insert_all
decode_config_map now obj = record {
  entries = insert_all obj.binary_data (insert_all obj.entries []);
  resource_version = obj.resource_version;
  fetched_at = now;
}

-- for k, v := range set { m[k] = f(v) }
unfoldable pub put_all {ℓ} : {V : Type ℓ} → (Slice → V) → Map Slice → Map V → Map V
unfolding insert
put_all f [] m = m
put_all f ((k, v) ∷ set) m = put_all f set (insert k (f v) m)

-- for _, k := range del { m[k] = nil }
unfoldable pub null_all {ℓ} : {V : Type ℓ} → List Str → Map (Option V) → Map (Option V)
unfolding insert
null_all [] m = m
null_all (k ∷ del) m = null_all del (insert k none m)

unfoldable pub secret_body : Map Slice → List Str → Map (Option Bytes)
unfolding put_all null_all
secret_body set del = null_all del (put_all (λ v. v) set [])

-- The two halves of a ConfigMap's patch.
pub record Body : Type 0 where
  pub entries : Map (Option Str)
  pub binary : Map (Option Bytes)

abbrev pub text_of_value : Bool → Slice → Option Str
text_of_value true v = some (bytes_of v)
text_of_value false v = none

abbrev pub binary_of_value : Bool → Slice → Option Bytes
binary_of_value true v = none
binary_of_value false v = v

unfoldable pub config_map_body : Map Slice → List Str → Body
unfolding put_all null_all
config_map_body set del = record {
  entries = null_all del (put_all (λ v. text_of_value (valid_utf8 (bytes_of v)) v) set []);
  binary = null_all del (put_all (λ v. binary_of_value (valid_utf8 (bytes_of v)) v) set []);
}
