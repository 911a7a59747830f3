-- ===== src/Volume.antt =====
-- pkg/objectfs/volume.go: the attributes of an inline volume, and the lock holders of a volume.
-- `validation.IsDNS1123Subdomain` of apimachinery is the parameter `valid_subdomain`.
pub mod Attributes
pub mod Holders
pub mod Assembly
use roommate_csi.Prelude.{
  ℕ, zero, ◌+◌, ◌*◌, ◌%◌, ◌^◌, Bool, true, false, not, ◌||◌, Option, none, some, [], ◌∷◌, ◌++◌,
  if◌then◌else◌,
}
use roommate_csi.Prelude.Bytes.{Str, str, str_eq}
use roommate_csi.Prelude.Int.{ℤ, pos, negsuc, int64}
use roommate_csi.Number.{parse_uint, atoi, format_uint}
use roommate_csi.Map.{Map, lookup}
use roommate_csi.State.Action.{Act, set_manager}
use roommate_csi.Cache.{second, default_staleness_bound}
use roommate_csi.Lease.{default_lease_duration, new_manager}

abbrev pub kind_secret : Str
kind_secret = str "Secret"

abbrev pub kind_config_map : Str
kind_config_map = str "ConfigMap"

pub record Config : Type 0 where
  pub object_kind : Str
  pub object_name : Str
  pub lease_name : Str
  pub namespace : Str
  pub file_mode : ℕ
  pub dir_mode : ℕ
  pub uid : ℕ
  pub gid : ℕ
  pub staleness_bound : ℤ
  pub lease_duration : ℤ

-- What is wrong with the attributes; the last three name the attribute.
pub data Invalid : Type 0 where
  no_namespace bad_kind bad_object_name bad_lease_name : Invalid
  bad_mode bad_number bad_seconds : Str → Invalid

pub data Parsed (A : Type 0) : Type 0 where
  good : A → Parsed A
  bad : Invalid → Parsed A

infixl 5 ◌>>=◌ ◌>>◌
abbrev pub ◌>>=◌ : {A B : Type 0} → Parsed A → (A → Parsed B) → Parsed B
good a >>= f = f a
bad e >>= f = bad e

abbrev pub ◌>>◌ : {B : Type 0} → Parsed (Unit {0}) → Parsed B → Parsed B
m >> k = m >>= λ _. k

-- if !test { return err }
abbrev pub require : Bool → Invalid → Parsed (Unit {0})
require true e = good tt
require false e = bad e

-- attr[key]: a missing attribute is the empty string.
abbrev pub text_of : Option Str → Str
text_of none = []
text_of (some raw) = raw

unfoldable pub attribute : Map Str → Str → Str
unfolding lookup
attribute attr key = text_of (lookup key attr)

abbrev pub parsed_or : {A : Type 0} → Invalid → Option A → Parsed A
parsed_or e none = bad e
parsed_or e (some n) = good n

unfoldable pub parse_mode : Map Str → Str → ℕ → Parsed ℕ
parse_mode attr key default =
    let raw = attribute attr key in
    if str_eq raw [] then good default else parsed_or (bad_mode key) (parse_uint 8 32 raw)

unfoldable pub parse_uint32 : Map Str → Str → ℕ → Parsed ℕ
parse_uint32 attr key default =
    let raw = attribute attr key in
    if str_eq raw [] then good default else parsed_or (bad_number key) (parse_uint 10 32 raw)

-- `time.Duration(n) * time.Second` wraps like every int64 product.
abbrev pub positive_seconds : Str → Option ℤ → Parsed ℤ
positive_seconds key none = bad (bad_seconds key)
positive_seconds key (some (pos zero)) = bad (bad_seconds key)
positive_seconds key (some (pos n)) = good (int64 (n * second))
positive_seconds key (some (negsuc n)) = bad (bad_seconds key)

unfoldable pub parse_seconds : Map Str → Str → ℤ → Parsed ℤ
parse_seconds attr key default =
    let raw = attribute attr key in
    if str_eq raw [] then good default else positive_seconds key (atoi raw)

abbrev pub lease_name_of : Str → Str → Str
lease_name_of given object_name = if str_eq given [] then str "roommate-" ++ object_name else given

unfoldable pub parse_config : (Str → Bool) → Map Str → Str → Parsed Config
parse_config valid_subdomain attr namespace = do
  require (not (str_eq namespace [])) no_namespace
  let kind = attribute attr (str "objectKind")
  require (str_eq kind kind_secret || str_eq kind kind_config_map) bad_kind
  let object_name = attribute attr (str "objectName")
  require (valid_subdomain object_name) bad_object_name
  let given = attribute attr (str "leaseName")
  require (str_eq given [] || valid_subdomain given) bad_lease_name
  file_mode ← parse_mode attr (str "fileMode") 0o600
  dir_mode ← parse_mode attr (str "dirMode") 0o700
  uid ← parse_uint32 attr (str "uid") 0
  gid ← parse_uint32 attr (str "gid") 0
  staleness_bound ← parse_seconds attr (str "stalenessBoundSeconds") (pos default_staleness_bound)
  lease_duration ← parse_seconds attr (str "leaseDurationSeconds") (pos default_lease_duration)
  good (record {
    object_kind = kind;
    object_name = object_name;
    lease_name = lease_name_of given object_name;
    namespace = namespace;
    file_mode = file_mode;
    dir_mode = dir_mode;
    uid = uid;
    gid = gid;
    staleness_bound = staleness_bound;
    lease_duration = lease_duration;
  })

-- The identity of the lock holder with this sequence number: `%s:%d`.
unfoldable pub holder_of : Str → ℕ → Str
unfolding format_uint
holder_of pod_uid seq = pod_uid ++ (b':' ∷ format_uint seq)

pub record Volume : Type 0 where
  pub cfg : Config
  pub open cfg use *
  pub pod_uid : Str

-- A new manager under the next sequence number, a uint64, sharing the mutex of the volume.
unfoldable pub new_lease : {W : Type 0} → Volume → Act W ℕ
unfolding holder_of new_manager set_manager
new_lease vol s =
    let seq = (s.shared.holder_seq + 1) % 2 ^ 64 in
    let m =
      new_manager vol.namespace vol.lease_name (holder_of vol.pod_uid seq) vol.lease_duration in
    (
      seq,
      set_manager seq (record m { has_local = true })
          (record s { shared = record s.shared { holder_seq = seq } }),
    )
