-- ===== src/Tests/AssemblyRuns.antt =====
-- The theorems on a volume with its store, over an API server that keeps the patches it was sent.
use roommate_csi.Prelude.{
  ◌≡◌, refl, false, Option, none, some, [], ◌∷◌, ◌++◌, arith, ap, subst, ◌*◌,
}
use roommate_csi.Prelude.Bytes.{Bytes, Str, str, str_eq}
use roommate_csi.Prelude.Int.{pos}
use roommate_csi.Map.{Map, lookup, insert, insert_all, delete, IsDistinct}
use roommate_csi.Map.Laws.{lookup-insert, lookup-delete, insert-IsDistinct, delete-IsDistinct}
use roommate_csi.Snapshot.{Snapshot, get}
use roommate_csi.Snapshot.Content.{merged}
use roommate_csi.State.{Result, ok, err, Shared, slices}
use roommate_csi.Cache.{second}
use roommate_csi.Stores.{decode_config_map}
use roommate_csi.Stores.Client.{Client, config_map_store}
use roommate_csi.Stores.Merging.{IsPatched}
use roommate_csi.Volume.{Config, kind_config_map}
use roommate_csi.Volume.Assembly.{Assembled, assembled, new_volume, Serves, read_back}
use roommate_csi.Tests.World.{start}

module _ {V : Type 0} where
  -- The data after the patches, the last one at the head.
  abbrev pub apply : Option V → Str → Map V → Map V
  apply none k m = delete k m
  apply (some v) k m = insert k v m

  unfoldable pub kept : Map (Option V) → Map V
  unfolding insert delete
  kept [] = []
  kept ((k, change) ∷ patches) = apply change k (kept patches)

  kept-IsDistinct : (patches : Map (Option V)) → IsDistinct (kept patches)
  unfolding kept
  kept-IsDistinct [] = tt
  kept-IsDistinct ((k, none) ∷ patches) =
      delete-IsDistinct k (kept patches) (kept-IsDistinct patches)
  kept-IsDistinct ((k, some v) ∷ patches) =
      insert-IsDistinct k v (kept patches) (kept-IsDistinct patches)

  kept-IsPatched :
      (patch patches : Map (Option V)) → IsPatched patch (kept patches) (kept (patch ++ patches))
  unfolding kept lookup
  kept-IsPatched [] patches k = refl
  kept-IsPatched ((j, none) ∷ patch) patches k =
      ground (arith, kept-IsPatched patch patches k, lookup-delete k j (kept (patch ++ patches)))
  kept-IsPatched ((j, some v) ∷ patch) patches k =
      ground (arith, kept-IsPatched patch patches k, lookup-insert k j v (kept (patch ++ patches)))

pub record Patches : Type 0 where
  pub secrets : Map (Option Bytes)
  pub texts : Map (Option Str)
  pub binaries : Map (Option Bytes)

abbrev pub client : Client Patches
client = record {
  secret_get = λ ns name sh.
      (ok (record { entries = kept sh.world.secrets; resource_version = str "1" }), sh);
  secret_patch = λ ns name body sh.
      (ok tt, record sh { world = record sh.world { secrets = body ++ sh.world.secrets } });
  config_map_get = λ ns name sh. (
    ok (record {
      entries = kept sh.world.texts;
      binary_data = kept sh.world.binaries;
      resource_version = str "1";
    }),
    sh,
  );
  config_map_patch = λ ns name body sh. (
    ok tt,
    record sh {
      world = record sh.world {
        texts = body.entries ++ sh.world.texts;
        binaries = body.binary ++ sh.world.binaries;
      };
    },
  );
  time_now = λ sh. 7;
}

abbrev value_or : {A : Type 0} → A → Result A → A
value_or default (ok a) = a
value_or default (err e) = default

ok_inj : {A : Type 0} {a b : A} → ok a ≡ ok b → a ≡ b
ok_inj {a} e = ap (value_or a) e

serves : (ns name : Str) → Serves client ns name
serves ns name = record {
  secret_once =
      λ sh obj e. subst (λ o. IsDistinct o.entries) (ok_inj e) (kept-IsDistinct sh.world.secrets);
  secret_merges = λ sh body obj e sent. (
    record { entries = kept (body ++ sh.world.secrets); resource_version = str "1" },
    refl,
    subst (λ o. IsPatched body o.entries (kept (body ++ sh.world.secrets))) (ok_inj e)
        (kept-IsPatched body sh.world.secrets),
  );
  config_map_once = λ sh obj e.
      subst (λ o. IsDistinct o.entries × IsDistinct o.binary_data) (ok_inj e)
        (kept-IsDistinct sh.world.texts, kept-IsDistinct sh.world.binaries);
  config_map_merges = λ sh body obj e sent. (
    record {
      entries = kept (body.entries ++ sh.world.texts);
      binary_data = kept (body.binary ++ sh.world.binaries);
      resource_version = str "1";
    },
    refl,
    subst (λ o. IsPatched body.entries o.entries (kept (body.entries ++ sh.world.texts))) (ok_inj e)
        (kept-IsPatched body.entries sh.world.texts),
    subst (λ o. IsPatched body.binary o.binary_data (kept (body.binary ++ sh.world.binaries)))
        (ok_inj e) (kept-IsPatched body.binary sh.world.binaries),
  );
}

abbrev mounted : Config
mounted = record {
  object_kind = kind_config_map;
  object_name = str "settings";
  lease_name = str "roommate-settings";
  namespace = str "app";
  file_mode = 0o600;
  dir_mode = 0o700;
  uid = 0;
  gid = 0;
  staleness_bound = pos (5 * second);
  lease_duration = pos (15 * second);
}

abbrev volume : Assembled Patches
volume = assembled client mounted (str "uid") (config_map_store client (str "app") (str "settings"))

makes : new_volume client mounted (str "uid") ≡ some volume
unfolding new_volume str_eq
makes = refl

abbrev quiet : Shared Patches
quiet = record {
  cur = none;
  holder_seq = 0;
  acquiring = false;
  managers = start.shared.managers;
  handles = start.shared.handles;
  world = record {
    secrets = [];
    texts = (str "a", some (str "x")) ∷ (str "b", some (str "y")) ∷ [];
    binaries = [];
  };
}

abbrev change : Map Bytes
change = (str "a", str "z") ∷ []

abbrev before : Snapshot
before = record {
  entries = (str "b", str "y") ∷ (str "a", str "x") ∷ [];
  resource_version = str "1";
  fetched_at = 7;
}

reads : (volume.store.object_get quiet).0 ≡ ok before
unfolding decode_config_map kept insert delete insert_all str_eq
reads = refl

read_back_example :
    (after : Snapshot) × ((volume.store.object_get
        (volume.store.object_patch (slices change) (str "b" ∷ []) quiet).1).0
      ≡ ok after)
    × ((k : Str) → get after k ≡ merged change (str "b" ∷ []) k (get before k))
unfolding lookup
read_back_example =
    read_back client mounted (str "uid") volume makes (serves (str "app") (str "settings")) change
      (str "b" ∷ []) (refl, tt) quiet before reads refl
