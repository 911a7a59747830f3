-- ===== src/Stores/Merging.antt =====
-- The patches of pkg/objectfs/store_secret.go and pkg/objectfs/store_configmap.go do to the object
-- what `With` does to a snapshot.
use roommate_csi.Prelude.{
  ℕ, ◌≡◌, refl, true, Option, none, some, or_else, is_some, ◌||◌, ◌⊎◌, List, [], ◌∷◌, arith,
  if◌then◌else◌,
}
use roommate_csi.Prelude.Bytes.{Bytes, Str, str_eq_iff}
use roommate_csi.Map.{Map, lookup, insert, insert_all, member, IsDistinct}
use roommate_csi.Map.Laws.{lookup-insert, lookup-insert_all}
use roommate_csi.Snapshot.{get}
use roommate_csi.Snapshot.Content.{merged}
use roommate_csi.State.{Slice, bytes_of, slices}
use roommate_csi.Stores.Utf8.{valid_utf8}
use roommate_csi.Stores.{
  Secret, ConfigMap, decode_secret, decode_config_map, put_all, null_all, secret_body,
  config_map_body, text_of_value, binary_of_value,
}

-- A merge patch of one entry: an absent key keeps the old value, null removes it.
abbrev pub patched {ℓ} : {V : Type ℓ} → Option (Option V) → Option V → Option V
patched none old = old
patched (some change) old = change

-- `after` holds, under every key, what the patch leaves there over `before`.
abbrev pub IsPatched {ℓ} : {V : Type ℓ} → Map (Option V) → Map V → Map V → Type ℓ
IsPatched patch before after =
    (k : Str) → lookup k after ≡ patched (lookup k patch) (lookup k before)

abbrev pub mapped {ℓ κ} : {U : Type ℓ} → {V : Type κ} → (U → V) → Option U → Option V
mapped f none = none
mapped f (some v) = some (f v)

module _ {ℓ} {V : Type ℓ} where
  lookup-put_all :
      (f : Slice → V) (k : Str) (set : Map Slice) (m : Map V)
      → IsDistinct set
      → lookup k (put_all f set m) ≡ or_else (mapped f (lookup k set)) (lookup k m)
  unfolding put_all lookup
  lookup-put_all f k [] m d = refl
  lookup-put_all f k ((j, v) ∷ set) m d = ground (
    arith,
    lookup-put_all f k set (insert j (f v) m) d.1,
    lookup-insert k j (f v) m,
    str_eq_iff j k,
  )

  lookup-null_all :
      (k : Str) (del : List Str) (m : Map (Option V))
      → lookup k (null_all del m) ≡ (if member k del then some none else lookup k m)
  unfolding null_all member
  lookup-null_all k [] m = refl
  lookup-null_all k (j ∷ del) m =
      ground (arith, lookup-null_all k del (insert j none m), lookup-insert k j none m)

lookup-slices : (k : Str) (set : Map Bytes) → lookup k (slices set) ≡ mapped some (lookup k set)
unfolding lookup
lookup-slices k [] = refl
lookup-slices k ((j, v) ∷ set) = ground (arith, lookup-slices k set)

slices-IsDistinct : (set : Map Bytes) → IsDistinct set → IsDistinct (slices set)
slices-IsDistinct [] d = tt
slices-IsDistinct ((k, v) ∷ set) d =
    (ground (arith, lookup-slices k set), slices-IsDistinct set d.1)

-- A change of which no value is a nil slice.
module _ (set : Map Bytes) (del : List Str) (d : IsDistinct set) where
  -- What a patch says under a key, if it writes the values by `f`.
  abbrev pub said : {V : Type 0} → (Slice → Option V) → Str → Option (Option V)
  said f k = if member k del then some none else mapped (λ v. f (some v)) (lookup k set)

  lookup-body :
      {V : Type 0} (f : Slice → Option V) (k : Str)
      → lookup k (null_all del (put_all f (slices set) [])) ≡ said f k
  unfolding lookup
  lookup-body f k = ground (
    arith,
    lookup-null_all k del (put_all f (slices set) []),
    lookup-put_all f k (slices set) [] (slices-IsDistinct set d),
    lookup-slices k set,
  )

  -- Suppose that the API server applies the body as a merge patch. Then the snapshot decoded from the
  -- Secret afterwards holds, under every key, what the change leaves there over the snapshot decoded
  -- before: nothing under a deleted key, else the value set, else what was there.
  pub get-secret_body :
      (before after : Secret) (now later : ℕ)
      → IsDistinct before.entries
      → IsDistinct after.entries
      → IsPatched (secret_body (slices set) del) before.entries after.entries
      → (k : Str)
      → get (decode_secret later after) k ≡ merged set del k (get (decode_secret now before) k)
  unfolding get decode_secret merged secret_body lookup
  get-secret_body before after now later db da p k = ground (
    arith,
    p k,
    lookup-body (λ v. v) k,
    lookup-insert_all k before.entries [] db,
    lookup-insert_all k after.entries [] da,
  )

  module _ (before after : ConfigMap)
      (texts : IsPatched (config_map_body (slices set) del).entries before.entries after.entries)
      (binaries : IsPatched
        (config_map_body (slices set) del).binary
        before.binary_data
        after.binary_data) where
    -- Suppose that the API server applies both halves of the body as merge patches. Then the
    -- snapshot decoded from the ConfigMap afterwards holds, under every key, what the change leaves
    -- there over the snapshot decoded before, whichever half held the key and holds it now.
    pub get-config_map_body :
        (now later : ℕ)
        → IsDistinct before.entries
        → IsDistinct before.binary_data
        → IsDistinct after.entries
        → IsDistinct after.binary_data
        → (k : Str)
        → get (decode_config_map later after) k
          ≡ merged set del k (get (decode_config_map now before) k)
    unfolding get decode_config_map merged config_map_body lookup
    get-config_map_body now later db bb da ba k = ground (
      arith,
      texts k,
      binaries k,
      lookup-body (λ v. text_of_value (valid_utf8 (bytes_of v)) v) k,
      lookup-body (λ v. binary_of_value (valid_utf8 (bytes_of v)) v) k,
      lookup-insert_all k before.binary_data (insert_all before.entries []) bb,
      lookup-insert_all k before.entries [] db,
      lookup-insert_all k after.binary_data (insert_all after.entries []) ba,
      lookup-insert_all k after.entries [] da,
    )

    -- A key that the change names is in at most one half afterwards, which the API server demands.
    pub config_map_body_exclusive :
        (k : Str)
        → member k del || is_some (lookup k set) ≡ true
        → (lookup k after.entries ≡ none) ⊎ (lookup k after.binary_data ≡ none)
    unfolding config_map_body
    config_map_body_exclusive k named = ground (
      arith,
      texts k,
      binaries k,
      lookup-body (λ v. text_of_value (valid_utf8 (bytes_of v)) v) k,
      lookup-body (λ v. binary_of_value (valid_utf8 (bytes_of v)) v) k,
    )
