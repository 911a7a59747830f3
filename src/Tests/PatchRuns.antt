-- ===== src/Tests/PatchRuns.antt =====
-- The theorems on the bodies of merge patches, for a change that moves one key into the binary half
-- and deletes another.
use roommate_csi.Prelude.{◌≡◌, refl, subst, true, false, List, [], ◌∷◌, arith}
use roommate_csi.Prelude.Bytes.{Bytes, Str, str, str_eq, str_eq_iff}
use roommate_csi.Map.{Map, lookup, insert, delete}
use roommate_csi.Stores.Utf8.{valid_utf8}
use roommate_csi.Stores.{Secret, ConfigMap, put_all, null_all, secret_body, config_map_body}
use roommate_csi.Stores.Merging.{IsPatched}
use roommate_csi.State.{slices}

-- Only ASCII passes for text here.
abbrev change : Map Bytes
change = (str "a", 255 ∷ []) ∷ []

abbrev deleted : List Str
deleted = str "b" ∷ []

abbrev secret_before : Secret
secret_before = record { entries = (str "b", str "y") ∷ []; resource_version = str "1" }

abbrev secret_after : Secret
secret_after = record { entries = change; resource_version = str "2" }

abbrev before : ConfigMap
before = record {
  entries = (str "a", str "x") ∷ (str "b", str "y") ∷ [];
  binary_data = [];
  resource_version = str "1";
}

abbrev after : ConfigMap
after = record { entries = []; binary_data = change; resource_version = str "2" }

other_key : (k : Str) → str_eq (str "b") k ≡ true → str_eq (str "a") k ≡ false
unfolding str_eq
other_key k e = subst (λ x. str_eq (str "a") x ≡ false) ((str_eq_iff (str "b") k).0 e) refl

secret-IsPatched :
    IsPatched (secret_body (slices change) deleted) secret_before.entries secret_after.entries
unfolding secret_body put_all null_all insert delete lookup str_eq
secret-IsPatched k = ground (arith, other_key k)

texts : IsPatched (config_map_body (slices change) deleted).entries before.entries after.entries
unfolding config_map_body valid_utf8 put_all null_all insert delete lookup str_eq
texts k = ground (arith, other_key k)

binaries :
    IsPatched (config_map_body (slices change) deleted).binary before.binary_data after.binary_data
unfolding config_map_body valid_utf8 put_all null_all insert delete lookup str_eq
binaries k = ground (arith, other_key k)
