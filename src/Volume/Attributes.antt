-- ===== src/Volume/Attributes.antt =====
-- `ParseConfig` of pkg/objectfs/volume.go: what it accepts, and with which values.
use roommate_csi.Prelude.{
  ℕ, suc, ◌*◌, ◌^◌, ◌≤◌, ◌<◌, ◌≡◌, ◌≢◌, ◌⊎◌, Bool, true, Option, none, some, [], ◌∷◌, arith,
}
use roommate_csi.Prelude.Bytes.{Str, str, str_eq_iff}
use roommate_csi.Prelude.Int.{ℤ, pos, negsuc, int64}
use roommate_csi.Map.{Map}
use roommate_csi.Number.{parse_uint, parse_digits, push_digit, digit_value, atoi}
use roommate_csi.Cache.{second}
use roommate_csi.Volume.{
  Config, good, kind_secret, kind_config_map, attribute, parse_mode, parse_uint32, parse_seconds,
  parse_config, lease_name_of,
}

push_digit_bound :
    (base bits n : ℕ) (d : Option ℕ) (m : ℕ) → push_digit base bits n d ≡ some m → m < 2 ^ bits
unfolding push_digit
push_digit_bound base bits n none m e = ground arith
push_digit_bound base bits n (some d) m e = ground arith

parse_digits_bound :
    (base bits : ℕ) (o : Option ℕ) (s : Str) (m : ℕ)
    → ((k : ℕ) → o ≡ some k → k < 2 ^ bits)
    → parse_digits base bits o s ≡ some m
    → m < 2 ^ bits
unfolding parse_digits
parse_digits_bound base bits none s m h e = ground arith
parse_digits_bound base bits (some n) [] m h e = h m e
parse_digits_bound base bits (some n) (c ∷ s) m h e =
    parse_digits_bound base bits (push_digit base bits n (digit_value c)) s m
      (push_digit_bound base bits n (digit_value c)) e

pub parse_uint_bound :
    (base bits : ℕ) (s : Str) (m : ℕ)
    → 0 < 2 ^ bits
    → parse_uint base bits s ≡ some m
    → m < 2 ^ bits
unfolding parse_uint
parse_uint_bound base bits [] m h e = ground arith
parse_uint_bound base bits (c ∷ s) m h e =
    parse_digits_bound base bits (some 0) (c ∷ s) m (λ k f. ground (arith, h)) e

parse_mode_bound :
    (attr : Map Str) (key : Str) (default m : ℕ)
    → default < 2 ^ 32
    → parse_mode attr key default ≡ good m
    → m < 2 ^ 32
unfolding parse_mode
parse_mode_bound attr key default m h e =
    ground (arith, parse_uint_bound 8 32 (attribute attr key) m (omega arith))

parse_uint32_bound :
    (attr : Map Str) (key : Str) (default m : ℕ)
    → default < 2 ^ 32
    → parse_uint32 attr key default ≡ good m
    → m < 2 ^ 32
unfolding parse_uint32
parse_uint32_bound attr key default m h e =
    ground (arith, parse_uint_bound 10 32 (attribute attr key) m (omega arith))

module _ (valid_subdomain : Str → Bool) (attr : Map Str) (namespace : Str) where
  -- What an accepted configuration satisfies.
  pub record IsSound (cfg : Config) : Type 0 where
    pub own_namespace : cfg.namespace ≡ namespace
    pub named_namespace : namespace ≢ []
    pub kind : (cfg.object_kind ≡ kind_secret) ⊎ (cfg.object_kind ≡ kind_config_map)
    pub object : cfg.object_name ≡ attribute attr (str "objectName")
    pub object_valid : valid_subdomain cfg.object_name ≡ true
    pub lease : cfg.lease_name ≡ lease_name_of (attribute attr (str "leaseName")) cfg.object_name
    pub lease_valid :
        (attribute attr (str "leaseName") ≡ []) ⊎ (valid_subdomain cfg.lease_name ≡ true)
    pub modes : (cfg.file_mode < 2 ^ 32) × (cfg.dir_mode < 2 ^ 32)
    pub owners : (cfg.uid < 2 ^ 32) × (cfg.gid < 2 ^ 32)

  -- An accepted configuration has the namespace of the pod, whatever the attributes say; its kind is
  -- one of the two; its names are valid or, for the lease, derived from the object's; and its modes
  -- and owners are 32-bit numbers.
  pub parse_config-IsSound :
      (cfg : Config) → parse_config valid_subdomain attr namespace ≡ good cfg → IsSound cfg
  unfolding parse_config
  parse_config-IsSound cfg e = record {
    own_namespace = ground arith;
    named_namespace = ground (arith, str_eq_iff namespace []);
    kind = ground (
      arith,
      str_eq_iff (attribute attr (str "objectKind")) kind_secret,
      str_eq_iff (attribute attr (str "objectKind")) kind_config_map,
    );
    object = ground arith;
    object_valid = ground arith;
    lease = ground arith;
    lease_valid = ground (arith, str_eq_iff (attribute attr (str "leaseName")) []);
    modes = (
      ground (arith, parse_mode_bound attr (str "fileMode") 0o600 cfg.file_mode (omega arith)),
      ground (arith, parse_mode_bound attr (str "dirMode") 0o700 cfg.dir_mode (omega arith)),
    );
    owners = (
      ground (arith, parse_uint32_bound attr (str "uid") 0 cfg.uid (omega arith)),
      ground (arith, parse_uint32_bound attr (str "gid") 0 cfg.gid (omega arith)),
    );
  }

int64_small : (n : ℕ) → n < 2 ^ 63 → int64 n ≡ pos n
unfolding int64
int64_small n h = ground arith

-- What the duration stands for, where it is not negative.
abbrev pub nanoseconds : ℤ → Option ℕ
nanoseconds (pos n) = some n
nanoseconds (negsuc n) = none

int64_large : (n : ℕ) → 2 ^ 63 ≤ n → nanoseconds (int64 n) ≢ some n
unfolding int64
int64_large n h = ground arith

-- A positive number of seconds is accepted. It is the duration that it says exactly if it is at most
-- 9223372036; from there on the product wraps, and the duration is another one, or negative.
pub parse_seconds_wraps :
    (attr : Map Str) (key : Str) (default : ℤ) (n : ℕ)
    → attribute attr key ≢ []
    → atoi (attribute attr key) ≡ some (pos (suc n))
    → (d : ℤ) × (parse_seconds attr key default ≡ good d)
      × (suc n ≤ 9223372036 → d ≡ pos (suc n * second))
      × (9223372036 < suc n → nanoseconds d ≢ some (suc n * second))
unfolding parse_seconds
parse_seconds_wraps attr key default n named e = (
  int64 (suc n * second),
  ground (arith, str_eq_iff (attribute attr key) []),
  λ small. int64_small (suc n * second) (omega arith),
  λ large. int64_large (suc n * second) (omega arith),
)
