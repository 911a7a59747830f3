-- ===== src/Cache.antt =====
-- pkg/objectfs/cache.go: the snapshot that a volume serves, and when it is read anew.
pub mod Reads
pub mod Versions
pub mod Watch
use roommate_csi.Prelude.{
  ℕ, zero, ◌-◌, ◌*◌, Bool, false, Option, none, some, ltb, leb, if◌then◌else◌,
}
use roommate_csi.Prelude.Int.{ℤ, pos, negsuc}
use roommate_csi.Number.{parse_uint}
use roommate_csi.Snapshot.{Snapshot}
use roommate_csi.State.{Result, ok, err, Entry, State, Env, get_object}
use roommate_csi.State.Action.{Act, return, ◌>>=◌, ◌>>◌, on_ok, modify, request, set_cur}

-- Nanoseconds in a second.
abbrev pub second : ℕ
second = 1000000000

abbrev pub default_staleness_bound : ℕ
default_staleness_bound = 30 * second

-- The bound that `NewCache` keeps.
unfoldable pub cache_bound : ℤ → ℕ
cache_bound (pos zero) = default_staleness_bound
cache_bound (pos n) = n
cache_bound (negsuc n) = default_staleness_bound

-- The snapshot of an entry, if there is an entry.
abbrev pub snap_of : Option Entry → Option Snapshot
snap_of none = none
snap_of (some e) = some e.snap

module _ {W : Type 0} where
  unfoldable pub current : State W → Option Snapshot
  current s = snap_of s.shared.cur

-- Both versions parse, and the new one is not newer.
abbrev pub stale_version : Option ℕ → Option ℕ → Bool
stale_version (some cur_rv) (some new_rv) = leb new_rv cur_rv
stale_version none new_rv = false
stale_version (some cur_rv) none = false

unfoldable pub drops : Option Entry → Snapshot → Bool
drops none snap = false
drops (some e) snap =
    stale_version (parse_uint 10 64 e.snap.resource_version)
      (parse_uint 10 64 snap.resource_version)

module _ {W : Type 0} (env : Env W) where
  unfoldable pub set : Option Snapshot → State W → State W
  unfolding set_cur
  set none s = s
  set (some snap) s = set_cur (some (record { snap = snap; last_sync = env.now s.shared })) s

  unfoldable pub set_from_watch : Option Snapshot → State W → State W
  unfolding set drops
  set_from_watch none s = s
  set_from_watch (some snap) s = if drops s.shared.cur snap then s else set (some snap) s

  unfoldable pub fresh : Act W (Result Snapshot)
  unfolding set request
  fresh = do
    r ← request get_object env.object_get
    on_ok r λ snap. do modify (set (some snap)); return (ok snap)

  -- The snapshot read, or that of the entry which was cached before.
  abbrev pub served : Option Entry → Result Snapshot → Option Snapshot
  served e (ok snap) = some snap
  served e (err _) = snap_of e

  -- `time.Since(e.lastSync) < c.bound`
  abbrev pub within_bound : ℕ → Option Entry → State W → Bool
  within_bound bound none s = false
  within_bound bound (some e) s = ltb (env.now s.shared - e.last_sync) bound

  unfoldable pub maybe_fresh : ℕ → Act W (Option Snapshot)
  unfolding fresh
  maybe_fresh bound s =
      let e = s.shared.cur in
      let (r, s') = fresh s in if within_bound bound e s then (snap_of e, s) else (served e r, s')
