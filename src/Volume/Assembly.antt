-- ===== src/Volume/Assembly.antt =====
-- pkg/objectfs/volume.go: NewVolume, with the store that it chooses by the kind of the object.
use roommate_csi.Prelude.{
  ℕ, ◌≡◌, Bool, Option, none, some, List, if◌then◌else◌, refl, arith, ap, sym, ◌∙◌, subst, ◌⊎◌,
  Bool-cases, false, inl, inr,
}
use roommate_csi.Prelude.Bytes.{Bytes, Str, str_eq, str_eq_refl}
use roommate_csi.Map.{Map, IsDistinct}
use roommate_csi.Snapshot.{Snapshot, get}
use roommate_csi.Snapshot.Content.{merged}
use roommate_csi.State.{Result, ok, err, Store, Shared, slices}
use roommate_csi.Cache.{cache_bound}
use roommate_csi.Stores.{
  decode_secret, decode_config_map, Body, Secret, ConfigMap, secret_body, config_map_body,
}
use roommate_csi.Stores.Client.{Client, decoded, secret_store, config_map_store}
use roommate_csi.Stores.Merging.{IsPatched, get-secret_body, get-config_map_body}
use roommate_csi.Volume.{Config, Volume, good, parse_config, kind_secret, kind_config_map}
use roommate_csi.Volume.Attributes.{parse_config-IsSound}

-- A volume with its store, and the bound of its cache.
pub record Assembled (W : Type 0) : Type 0 where
  pub volume : Volume
  pub store : Store W
  pub bound : ℕ

module _ {W : Type 0} (client : Client W) where
  abbrev pub assembled : Config → Str → Store W → Assembled W
  assembled cfg pod_uid store = record {
    volume = record { cfg = cfg; pod_uid = pod_uid };
    store = store;
    bound = cache_bound cfg.staleness_bound;
  }

  -- The error for an unknown kind is `none`.
  unfoldable pub new_volume : Config → Str → Option (Assembled W)
  new_volume cfg pod_uid =
      if str_eq cfg.object_kind kind_secret
      then some (assembled cfg pod_uid (secret_store client cfg.namespace cfg.object_name))
      else if str_eq cfg.object_kind kind_config_map
      then some (assembled cfg pod_uid (config_map_store client cfg.namespace cfg.object_name))
      else none

  -- The API server keeps one object of a name, whose maps have each key once. A patch that it accepts
  -- is a merge patch of that object, and nobody else writes it meanwhile.
  pub record Serves (ns name : Str) : Type 0 where
    pub secret_once :
        (sh : Shared W) (obj : Secret)
        → (client.secret_get ns name sh).0 ≡ ok obj
        → IsDistinct obj.entries
    pub secret_merges :
        (sh : Shared W) (body : Map (Option Bytes)) (obj : Secret)
        → (client.secret_get ns name sh).0 ≡ ok obj
        → (client.secret_patch ns name body sh).0 ≡ ok tt
        → (new : Secret) × ((client.secret_get ns name (client.secret_patch ns name body sh).1).0
            ≡ ok new)
          × IsPatched body obj.entries new.entries
    pub config_map_once :
        (sh : Shared W) (obj : ConfigMap)
        → (client.config_map_get ns name sh).0 ≡ ok obj
        → IsDistinct obj.entries × IsDistinct obj.binary_data
    pub config_map_merges :
        (sh : Shared W) (body : Body) (obj : ConfigMap)
        → (client.config_map_get ns name sh).0 ≡ ok obj
        → (client.config_map_patch ns name body sh).0 ≡ ok tt
        → (new : ConfigMap) × ((client.config_map_get ns name
              (client.config_map_patch ns name body sh).1).0
            ≡ ok new)
          × IsPatched body.entries obj.entries new.entries
          × IsPatched body.binary obj.binary_data new.binary_data

  decoded_ok :
      {A : Type 0} (f : A → Snapshot) (r : Result A) (snap : Snapshot)
      → decoded f r ≡ ok snap
      → (obj : A) × (r ≡ ok obj) × (snap ≡ f obj)
  decoded_ok f (ok obj) snap e = (obj, refl, ground arith)
  decoded_ok f (err x) snap e = absurd (ground arith)

  module _ (ns name : Str) (serves : Serves ns name) (set : Map Bytes) (del : List Str)
      (distinct : IsDistinct set) (sh : Shared W) (before : Snapshot) where
    -- A patch that is accepted is read back through the store.
    abbrev ReadsBack : Store W → Type 0
    ReadsBack store =
        (store.object_get sh).0 ≡ ok before
        → (store.object_patch (slices set) del sh).0 ≡ ok tt
        → (after : Snapshot) × ((store.object_get (store.object_patch (slices set) del sh).1).0
            ≡ ok after)
          × ((k : Str) → get after k ≡ merged set del k (get before k))

    secret_store-ReadsBack : ReadsBack (secret_store client ns name)
    secret_store-ReadsBack got sent =
        let now = client.time_now (client.secret_get ns name sh).1 in
        let (obj, read, is_obj) =
          decoded_ok (decode_secret now) (client.secret_get ns name sh).0 before got in
        let (new, again, merges) =
          serves.secret_merges sh (secret_body (slices set) del) obj read sent in
        let sh' = (client.secret_patch ns name (secret_body (slices set) del) sh).1 in
        let later = client.time_now (client.secret_get ns name sh').1 in
        (
          decode_secret later new,
          ap (decoded (decode_secret later)) again,
          λ k.
              get-secret_body set del distinct obj new now later (serves.secret_once sh obj read)
                (serves.secret_once sh' new again) merges k
              ∙ ap (λ x. merged set del k (get x k)) (sym is_obj),
        )

    config_map_store-ReadsBack : ReadsBack (config_map_store client ns name)
    config_map_store-ReadsBack got sent =
        let now = client.time_now (client.config_map_get ns name sh).1 in
        let (obj, read, is_obj) =
          decoded_ok (decode_config_map now) (client.config_map_get ns name sh).0 before got in
        let body = config_map_body (slices set) del in
        let (new, again, texts, binaries) = serves.config_map_merges sh body obj read sent in
        let sh' = (client.config_map_patch ns name body sh).1 in
        let later = client.time_now (client.config_map_get ns name sh').1 in
        let (db, bb) = serves.config_map_once sh obj read in
        let (da, ba) = serves.config_map_once sh' new again in
        (
          decode_config_map later new,
          ap (decoded (decode_config_map later)) again,
          λ k.
              get-config_map_body set del distinct obj new texts binaries now later db bb da ba k
              ∙ ap (λ x. merged set del k (get x k)) (sym is_obj),
        )

  -- The store of the volume, if there is a volume.
  abbrev store_or : Store W → Option (Assembled W) → Store W
  store_or default none = default
  store_or default (some v) = v.store

  store_of :
      (cfg : Config) (pod_uid : Str) (v : Assembled W)
      → new_volume cfg pod_uid ≡ some v
      → (v.store ≡ secret_store client cfg.namespace cfg.object_name)
        ⊎ (v.store ≡ config_map_store client cfg.namespace cfg.object_name)
  unfolding new_volume
  store_of cfg pod_uid v made =
      let secrets = secret_store client cfg.namespace cfg.object_name in
      let is_store = sym (ap (store_or secrets) made) in
      elim (Bool-cases (str_eq cfg.object_kind kind_secret)) [
        | inl secret ↦ inl (is_store ∙ rw secret refl)
        | inr other ↦ elim (Bool-cases (str_eq cfg.object_kind kind_config_map)) [
          | inl config_map ↦ inr (is_store ∙ rw (other, config_map) refl)
          | inr neither ↦ inl (is_store ∙ rw (other, neither) refl)
        ]
      ]

  -- Suppose that the API server keeps an object of each name, whose maps have each key once, and
  -- that a patch which it accepts is a merge patch of that object with nobody else writing it
  -- meanwhile. Then for a volume that was made for either kind of object, and a change without nil
  -- slices that is sent through its store and accepted, the store reads back a snapshot that holds,
  -- under every key, what the change leaves there over the snapshot that the store would have read
  -- before.
  pub read_back :
      (cfg : Config) (pod_uid : Str) (v : Assembled W)
      → new_volume cfg pod_uid ≡ some v
      → Serves cfg.namespace cfg.object_name
      → (set : Map Bytes) (del : List Str) → IsDistinct set
      → (sh : Shared W) (before : Snapshot) → (v.store.object_get sh).0 ≡ ok before
      → (v.store.object_patch (slices set) del sh).0 ≡ ok tt
      → (after : Snapshot) × ((v.store.object_get (v.store.object_patch (slices set) del sh).1).0
          ≡ ok after)
        × ((k : Str) → get after k ≡ merged set del k (get before k))
  read_back cfg pod_uid v made serves set del distinct sh before =
      elim (store_of cfg pod_uid v made) [
        | inl secret ↦
            subst (ReadsBack cfg.namespace cfg.object_name serves set del distinct sh before)
              (sym secret)
              (secret_store-ReadsBack cfg.namespace cfg.object_name serves set del distinct sh
                before)
        | inr config_map ↦
            subst (ReadsBack cfg.namespace cfg.object_name serves set del distinct sh before)
              (sym config_map)
              (config_map_store-ReadsBack cfg.namespace cfg.object_name serves set del distinct sh
                before)
      ]

  other_kind : str_eq kind_config_map kind_secret ≡ false
  unfolding str_eq
  other_kind = refl

  -- A volume is made for every configuration that is accepted, whose cache is bounded by the
  -- staleness that was asked for.
  pub parse_config-new_volume :
      (valid_subdomain : Str → Bool) (attr : Map Str) (namespace : Str) (cfg : Config)
      (pod_uid : Str)
      → parse_config valid_subdomain attr namespace ≡ good cfg
      → (v : Assembled W) × (new_volume cfg pod_uid ≡ some v)
        × (v.bound ≡ cache_bound cfg.staleness_bound)
  unfolding new_volume
  parse_config-new_volume valid_subdomain attr namespace cfg pod_uid e =
      let sound = parse_config-IsSound valid_subdomain attr namespace cfg e in
      elim sound.kind [
        | inl secret ↦ (
          assembled cfg pod_uid (secret_store client cfg.namespace cfg.object_name),
          rw (secret, str_eq_refl kind_secret) refl,
          refl,
        )
        | inr config_map ↦ (
          assembled cfg pod_uid (config_map_store client cfg.namespace cfg.object_name),
          rw (config_map, other_kind, str_eq_refl kind_config_map) refl,
          refl,
        )
      ]
