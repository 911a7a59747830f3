-- ===== src/Lease/Record.antt =====
-- pkg/objectfs/lease.go: what a manager makes of a Lease that it has read (`claimable`), and what it
-- writes into one.
use roommate_csi.Prelude.{
  ℕ, zero, ◌+◌, ◌-◌, ◌*◌, ◌/◌, ◌&&◌, ◌||◌, Bool, true, false, Option, none, some, [], ◌==◌,
  if◌then◌else◌,
}
use roommate_csi.Prelude.Bytes.{Str, str_eq}
use roommate_csi.Prelude.Int.{ℤ, pos, negsuc, int32, exceeds}
use roommate_csi.State.{Lease, Observation, Manager}
use roommate_csi.Cache.{second}

abbrev pub default_lease_duration : ℕ
default_lease_duration = 15 * second

-- The duration that `NewLeaseManager` keeps.
unfoldable pub lease_duration : ℤ → ℕ
lease_duration (pos zero) = default_lease_duration
lease_duration (pos n) = n
lease_duration (negsuc n) = default_lease_duration

unfoldable pub new_manager : Str → Str → Str → ℤ → Manager
unfolding lease_duration
new_manager ns name holder duration = record {
  ns = ns;
  name = name;
  holder = holder;
  duration = lease_duration duration;
  has_local = false;
  held = false;
  healthy = false;
  renewing = false;
  obs = none;
}

-- time.Duration(secs) * time.Second
unfoldable pub in_seconds : ℤ → ℤ
in_seconds (pos n) = pos (n * second)
in_seconds (negsuc n) = negsuc (n * second + second - 1)

-- The duration after which a silent holder is taken to be gone.
unfoldable pub term : Manager → Option ℤ → ℤ
unfolding in_seconds
term m none = pos m.duration
term m (some secs) = in_seconds secs

-- When the record of `holder` and `renew_time` was first seen, if it is the one observed.
unfoldable pub first_seen : Option Observation → Str → ℕ → Option ℕ
first_seen none holder renew_time = none
first_seen (some o) holder renew_time =
    if str_eq o.holder holder && (o.renew_time == renew_time) then some o.at else none

abbrev pub observe : ℕ → Manager → Str → ℕ → Manager
observe now m holder renew_time = record m {
  obs = some (record { holder = holder; renew_time = renew_time; at = now });
}

-- A live-looking lease of another holder is judged by our own clock only.
abbrev pub judge : ℕ → Manager → Str → ℕ → ℤ → Option ℕ → Bool × Manager
judge now m holder renew_time dur none = (false, observe now m holder renew_time)
judge now m holder renew_time dur (some at) = (exceeds (now - at) dur, m)

abbrev pub claim_foreign : ℕ → Manager → Str → ℤ → Option ℕ → Bool × Manager
claim_foreign now m holder dur none = (true, m)
claim_foreign now m holder dur (some renew_time) =
    judge now m holder renew_time dur (first_seen m.obs holder renew_time)

abbrev pub claim_holder : ℕ → Manager → Lease → Option Str → Bool × Manager
claim_holder now m l none = (true, m)
claim_holder now m l (some holder) =
    if str_eq holder [] || str_eq holder m.holder
    then (true, m)
    else claim_foreign now m holder (term m l.duration_seconds) l.renew_time

unfoldable pub claimable : ℕ → Manager → Lease → Bool × Manager
claimable now m l = claim_holder now m l l.holder

-- Whether a lease names this manager: `HolderIdentity != nil && *HolderIdentity == m.holder`.
abbrev pub is_holder : Manager → Option Str → Bool
is_holder m none = false
is_holder m (some holder) = str_eq holder m.holder

-- What `create` sends.
unfoldable pub fresh_lease : ℕ → Manager → Lease
fresh_lease now m = record {
  holder = some m.holder;
  duration_seconds = some (int32 (m.duration / second));
  acquire_time = some now;
  renew_time = some now;
  version = [];
}

-- What `takeOver` sends: the version read is kept, so a concurrent write is a conflict.
unfoldable pub taken_over : ℕ → Manager → Lease → Lease
unfolding fresh_lease
taken_over now m cur = record (fresh_lease now m) { version = cur.version }
