-- ===== src/Cache/Versions.antt =====
-- The ordering guard of the watch in pkg/objectfs/cache.go.
use roommate_csi.Prelude.{ℕ, ◌≤◌, ◌<◌, ◌≡◌, ◌⊎◌, Option, some, arith}
use roommate_csi.Number.{parse_uint}
use roommate_csi.Snapshot.{Snapshot}
use roommate_csi.State.{Entry, State, Env}
use roommate_csi.Cache.{current, set_from_watch}

abbrev pub version : Snapshot → Option ℕ
version snap = parse_uint 10 64 snap.resource_version

module _ {W : Type 0} (env : Env W) where
  -- Where both versions are numbers, the cache ends at the newer of the two: a watch event is
  -- installed exactly if its version is above that of the cached snapshot.
  pub set_from_watch_newer :
      (s : State W) (e : Entry) (snap : Snapshot) (old new : ℕ)
      → s.shared.cur ≡ some e
      → version e.snap ≡ some old
      → version snap ≡ some new
      → ((old < new) × (current (set_from_watch env (some snap) s) ≡ some snap))
        ⊎ ((new ≤ old) × (set_from_watch env (some snap) s ≡ s))
  unfolding set_from_watch current
  set_from_watch_newer s e snap old new h ho hn = ground arith
