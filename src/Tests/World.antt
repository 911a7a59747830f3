-- ===== src/Tests/World.antt =====
-- One object, one lease and one clock behind the interfaces of State. Other goroutines put an old
-- snapshot into the cache whenever they run, and the context ends after a few sleeps.
use roommate_csi.Prelude.{
  ℕ, zero, suc, ◌+◌, ◌*◌, ◌==◌, Bool, true, false, Option, none, some, [], ◌∷◌, if◌then◌else◌,
}
use roommate_csi.Prelude.Bytes.{Bytes, str, str_eq}
use roommate_csi.Prelude.Int.{pos}
use roommate_csi.Map.{Map, insert_all, delete_all}
use roommate_csi.Number.{format_uint}
use roommate_csi.Snapshot.{Snapshot}
use roommate_csi.State.{
  Result, ok, err, not_found, already_exists, conflict, Lease, Manager, Handle, Shared, State,
  contents, Store, Leases, Host, Env,
}
use roommate_csi.Cache.{second}
use roommate_csi.Volume.{Config, Volume, kind_secret}

pub record World : Type 0 where
  pub object : Map Bytes
  pub version : ℕ
  pub lease : Option Lease
  pub time : ℕ
  pub sleeps : ℕ

abbrev pub snapshot_of : World → Snapshot
snapshot_of w = record {
  entries = w.object;
  resource_version = format_uint w.version;
  fetched_at = w.time;
}

abbrev pub api : Store World
api = record {
  object_get = λ sh. (ok (snapshot_of sh.world), sh);
  object_patch = λ set del sh. (
    ok tt,
    record sh {
      world = record sh.world {
        object = delete_all del (insert_all (contents set) sh.world.object);
        version = sh.world.version + 1;
      };
    },
  );
}

abbrev pub found_lease : Option Lease → Result Lease
found_lease none = err not_found
found_lease (some l) = ok l

abbrev pub with_lease : Option Lease → Shared World → Shared World
with_lease l sh = record sh { world = record sh.world { lease = l } }

abbrev pub create_in : Lease → Option Lease → Shared World → Result (Unit {0}) × Shared World
create_in l none sh = (ok tt, with_lease (some (record l { version = str "1" })) sh)
create_in l (some old) sh = (err already_exists, sh)

abbrev pub update_in : Lease → Option Lease → Shared World → Result (Unit {0}) × Shared World
update_in l none sh = (err not_found, sh)
update_in l (some old) sh =
    if str_eq l.version old.version
    then (ok tt, with_lease (some (record l { version = b'+' ∷ l.version })) sh)
    else (err conflict, sh)

abbrev pub coordination : Leases World
coordination = record {
  lease_get = λ ns name sh. (found_lease sh.world.lease, sh);
  lease_create = λ ns name l sh. create_in l sh.world.lease sh;
  lease_update = λ ns name l sh. update_in l sh.world.lease sh;
}

abbrev pub stale : Snapshot
stale = record {
  entries = (str "token", str "old") ∷ [];
  resource_version = str "3";
  fetched_at = 0;
}

abbrev pub nap : ℕ → Shared World → Bool × Shared World
nap zero sh = (false, sh)
nap (suc n) sh = (true, record sh { world = record sh.world { sleeps = n } })

abbrev pub linux : Host World
linux = record {
  now = λ sh. sh.world.time;
  sleep = λ n sh. nap sh.world.sleeps sh;
  ctx_done = λ sh. sh.world.sleeps == 0;
  others = λ sh. record sh { cur = some (record { snap = stale; last_sync = 0 }) };
}

abbrev pub env : Env World
env = record { store = api; leases = coordination; host = linux }

abbrev pub cfg : Config
cfg = record {
  object_kind = kind_secret;
  object_name = str "creds";
  lease_name = str "roommate-creds";
  namespace = str "app";
  file_mode = 0o600;
  dir_mode = 0o700;
  uid = 0;
  gid = 0;
  staleness_bound = pos (30 * second);
  lease_duration = pos (15 * second);
}

abbrev pub vol : Volume
vol = record { cfg = cfg; pod_uid = str "pod" }

abbrev pub open_handle : Handle
open_handle = record {
  key = str "token";
  snap = some stale;
  buf = str "old";
  dirty = false;
  lease = none;
}

abbrev pub world : World
world = record {
  object = (str "token", str "new") ∷ [];
  version = 7;
  lease = none;
  time = 100 * second;
  sleeps = 2;
}

-- Handle 0 is clean; handle 1 has unsaved bytes.
abbrev pub handles : ℕ → Handle
handles zero = open_handle
handles (suc n) = record open_handle { buf = str "mine"; dirty = true }

abbrev pub idle_manager : Manager
idle_manager = record {
  ns = str "app";
  name = str "roommate-creds";
  holder = str "pod:0";
  duration = 15 * second;
  has_local = false;
  held = false;
  healthy = false;
  renewing = false;
  obs = none;
}

abbrev pub start : State World
start = record {
  shared = record {
    cur = some (record { snap = stale; last_sync = 99 * second });
    holder_seq = 0;
    acquiring = false;
    managers = λ i. idle_manager;
    handles = handles;
    world = world;
  };
  requests = [];
}

abbrev pub foreign : Lease
foreign = record {
  holder = some (str "other:1");
  duration_seconds = some (pos 15);
  acquire_time = some 10;
  renew_time = some 10;
  version = str "5";
}

-- Somebody else holds the lease all the time, and the context ends after two sleeps.
abbrev pub contended : State World
contended = record start { shared = with_lease (some foreign) start.shared }
