-- ===== src/Cache/Watch/Throttle.antt =====
-- `Run` of pkg/objectfs/cache.go does not spin: what it takes for a round to go on without a sleep.
use roommate_csi.Prelude.{
  ◌≢◌, ℕ, ◌≡◌, Bool, true, false, Option, none, some, List, refl, arith, inl, inr, Bool-cases,
}
use roommate_csi.Prelude.Bytes.{Str}
use roommate_csi.Snapshot.{Snapshot}
use roommate_csi.State.{Result, ok, err, Shared, State, Env}
use roommate_csi.Cache.{fresh}
use roommate_csi.Cache.Watch.{
  WatchOutcome, watch_stopped, watch_closed, watch_failed, Signal, again, min_backoff, watch_once,
  slept, watched, synced, run_round,
}

module _ {W : Type 0} (env : Env W) (open_watch : Str → Shared W → Result (List Signal) × Shared W)
    (backoff : ℕ) (ended : (n : ℕ) (sh : Shared W) → (env.sleep n sh).0 ≡ false) (b : ℕ) where
  slept_ends : (s : State W) → (slept env open_watch backoff s).0 ≢ some (again b)
  slept_ends s e = ground (arith, ended backoff s.shared)

  watched_healthy :
      (r : Option (WatchOutcome × Bool)) (s : State W)
      → (watched env open_watch backoff r s).0 ≡ some (again b)
      → (r ≡ some (watch_closed, true)) × (b ≡ min_backoff)
  watched_healthy none s e = absurd (ground arith)
  watched_healthy (some (watch_stopped, healthy)) s e = absurd (ground arith)
  watched_healthy (some (watch_closed, true)) s e = (refl, ground arith)
  watched_healthy (some (watch_closed, false)) s e = absurd (slept_ends s e)
  watched_healthy (some (watch_failed, healthy)) s e = absurd (slept_ends s e)

  -- A snapshot was read, and the watch from its version was closed in good health.
  abbrev pub IsHealthy : Result Snapshot → State W → Type 0
  IsHealthy r s =
      (snap : Snapshot) × (r ≡ ok snap)
      × ((watch_once env open_watch snap.resource_version s).0 ≡ some (watch_closed, true))

  synced-IsHealthy :
      (r : Result Snapshot) (s : State W)
      → (synced env open_watch backoff r s).0 ≡ some (again b)
      → IsHealthy r s × (b ≡ min_backoff)
  synced-IsHealthy (err x) s e = absurd (slept_ends s e)
  synced-IsHealthy (ok snap) s e =
      let w = watch_once env open_watch snap.resource_version s in
      let (healthy, reset) = watched_healthy w.0 w.1 e in ((snap, refl, healthy), reset)

  -- If no sleep is completed, a round of the watch loop goes on only after a quorum read that
  -- succeeded and a watch that was closed in good health, and the next backoff is the least one.
  pub run_round_throttled :
      (s : State W)
      → (run_round env open_watch backoff s).0 ≡ some (again b)
      → IsHealthy (fresh env s).0 (fresh env s).1 × (b ≡ min_backoff)
  unfolding run_round
  run_round_throttled s e = elim (Bool-cases (env.ctx_done s.shared)) [
    | inl done ↦ absurd (ground arith)
    | inr alive ↦ synced-IsHealthy (fresh env s).0 (fresh env s).1 (ground arith)
  ]
