-- ===== src/State.antt =====
-- The state of one mounted volume, and what the program asks of the API server and the host.
-- `Shared` is what the goroutines of the volume share: the cache's atomic pointer, the sequence of
-- lock holders, the mutex `acquireMu`, the lease managers and the open handles (pointers are
-- numbers), and the world, which is not part of the program. A request to the API server blocks, so
-- it may change all of `Shared`: that is what the other goroutines do meanwhile. `requests` lists
-- the requests that the goroutine at hand has issued, newest first.
pub mod Action
use roommate_csi.Prelude.{ℕ, Bool, Option, none, some, List, [], ◌∷◌}
use roommate_csi.Prelude.Bytes.{Bytes, Str}
use roommate_csi.Prelude.Int.{ℤ}
use roommate_csi.Map.{Map}
use roommate_csi.Snapshot.{Snapshot}

-- The errors that the code tells apart: its own, and the classes of API errors.
pub data Error : Type 0 where
  too_large lease_lost forbidden unauthorized not_found conflict already_exists : Error
  entity_too_large cancelled other : Error

pub data Result {ℓ} (A : Type ℓ) : Type ℓ where
  ok : A → Result A
  err : Error → Result A

-- A `[]byte`, which may be nil.
abbrev pub Slice : Type 0
Slice = Option Bytes

abbrev pub bytes_of : Slice → Bytes
bytes_of none = []
bytes_of (some bytes) = bytes

-- A map of slices by their bytes.
abbrev pub contents : Map Slice → Map Bytes
contents [] = []
contents ((k, v) ∷ m) = (k, bytes_of v) ∷ contents m

-- A map of which no slice is nil.
abbrev pub slices : Map Bytes → Map Slice
slices [] = []
slices ((k, v) ∷ m) = (k, some v) ∷ slices m

-- `entry` of pkg/objectfs/cache.go.
pub record Entry : Type 0 where
  pub snap : Snapshot
  pub last_sync : ℕ

-- A coordination.k8s.io Lease: its spec and its resource version.
pub record Lease : Type 0 where
  pub holder : Option Str
  pub duration_seconds : Option ℤ
  pub acquire_time : Option ℕ
  pub renew_time : Option ℕ
  pub version : Str

-- `leaseObservation` with `valid`; an invalid one is `none`.
pub record Observation : Type 0 where
  pub holder : Str
  pub renew_time : ℕ
  pub at : ℕ

-- `LeaseManager`: `has_local` is `local != nil`, `renewing` is `cancel != nil`.
pub record Manager : Type 0 where
  pub ns : Str
  pub name : Str
  pub holder : Str
  pub duration : ℕ
  pub has_local : Bool
  pub held : Bool
  pub healthy : Bool
  pub renewing : Bool
  pub obs : Option Observation

-- `handle`: the pinned snapshot, the buffer, and the lease by its number.
pub record Handle : Type 0 where
  pub key : Str
  pub snap : Option Snapshot
  pub buf : Bytes
  pub dirty : Bool
  pub lease : Option ℕ

pub data Request : Type 0 where
  get_object : Request
  patch_object : Map Slice → List Str → Request
  get_lease : Request
  create_lease : Lease → Request
  update_lease : Lease → Request

pub record Shared (W : Type 0) : Type 0 where
  pub cur : Option Entry
  pub holder_seq : ℕ
  pub acquiring : Bool
  pub managers : ℕ → Manager
  pub handles : ℕ → Handle
  pub world : W

pub record State (W : Type 0) : Type 0 where
  pub shared : Shared W
  pub open shared use *
  pub requests : List Request

-- `Store` of pkg/objectfs/store.go, without the watch.
pub record Store (W : Type 0) : Type 0 where
  pub object_get : Shared W → Result Snapshot × Shared W
  pub object_patch : Map Slice → List Str → Shared W → Result (Unit {0}) × Shared W

-- The Lease client of client-go.
pub record Leases (W : Type 0) : Type 0 where
  pub lease_get : Str → Str → Shared W → Result Lease × Shared W
  pub lease_create : Str → Str → Lease → Shared W → Result (Unit {0}) × Shared W
  pub lease_update : Str → Str → Lease → Shared W → Result (Unit {0}) × Shared W

-- The clock in nanoseconds, a sleep that the context may end (`false`), the context, and what other
-- goroutines do between two steps of this one.
pub record Host (W : Type 0) : Type 0 where
  pub now : Shared W → ℕ
  pub sleep : ℕ → Shared W → Bool × Shared W
  pub ctx_done : Shared W → Bool
  pub others : Shared W → Shared W

pub record Env (W : Type 0) : Type 0 where
  pub store : Store W
  pub open store use *
  pub leases : Leases W
  pub open leases use *
  pub host : Host W
  pub open host use *
