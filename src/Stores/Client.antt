-- ===== src/Stores/Client.antt =====
-- pkg/objectfs/store_secret.go and pkg/objectfs/store_configmap.go: the stores themselves, over the
-- core client of client-go and the clock. Bodies go to the client before they are JSON.
use roommate_csi.Prelude.{ℕ, Option, ◌++◌}
use roommate_csi.Prelude.Bytes.{Bytes, Str, str}
use roommate_csi.Map.{Map}
use roommate_csi.Snapshot.{Snapshot}
use roommate_csi.State.{Result, ok, err, Shared, Store}
use roommate_csi.Stores.{
  Secret, ConfigMap, Body, decode_secret, decode_config_map, secret_body, config_map_body,
}

-- The client of the API server, by namespace and name.
pub record Client (W : Type 0) : Type 0 where
  pub secret_get : Str → Str → Shared W → Result Secret × Shared W
  pub secret_patch : Str → Str → Map (Option Bytes) → Shared W → Result (Unit {0}) × Shared W
  pub config_map_get : Str → Str → Shared W → Result ConfigMap × Shared W
  pub config_map_patch : Str → Str → Body → Shared W → Result (Unit {0}) × Shared W
  pub time_now : Shared W → ℕ

-- What a watch asks for: `OneTermEqualSelector(field, value)` and the version to start after.
pub record ListOptions : Type 0 where
  pub field : Str
  pub value : Str
  pub resource_version : Str

unfoldable pub watch_options : Str → Str → ListOptions
watch_options name since = record {
  field = str "metadata.name";
  value = name;
  resource_version = since;
}

abbrev pub decoded : {A : Type 0} → (A → Snapshot) → Result A → Result Snapshot
decoded f (ok obj) = ok (f obj)
decoded f (err e) = err e

module _ {W : Type 0} (client : Client W) (ns name : Str) where
  abbrev pub get_secret : Shared W → Result Snapshot × Shared W
  get_secret sh =
      let (r, sh') = client.secret_get ns name sh in
      (decoded (decode_secret (client.time_now sh')) r, sh')

  abbrev pub get_config_map : Shared W → Result Snapshot × Shared W
  get_config_map sh =
      let (r, sh') = client.config_map_get ns name sh in
      (decoded (decode_config_map (client.time_now sh')) r, sh')

  -- `NewSecretStore` and its methods.
  abbrev pub secret_store : Store W
  secret_store = record {
    object_get = get_secret;
    object_patch = λ set del. client.secret_patch ns name (secret_body set del);
  }

  abbrev pub config_map_store : Store W
  config_map_store = record {
    object_get = get_config_map;
    object_patch = λ set del. client.config_map_patch ns name (config_map_body set del);
  }

-- `Describe`
unfoldable pub describe_secret : Str → Str
describe_secret name = str "secrets/" ++ name

unfoldable pub describe_config_map : Str → Str
describe_config_map name = str "configmaps/" ++ name
