-- ===== src/Cache/Watch.antt =====
-- `watchOnce` and `Run` of pkg/objectfs/cache.go. What the select statement of the loop receives is a
-- list of signals, in the order in which it takes them; other goroutines run between any two. The
-- call that opens a watch is the parameter `open_watch`.
pub mod Progress
pub mod Throttle
use roommate_csi.Prelude.{
  ℕ, ◌*◌, ◌-◌, Bool, true, false, ◌||◌, Option, none, some, List, [], ◌∷◌, leb, if◌then◌else◌,
}
use roommate_csi.Prelude.Bytes.{Str}
use roommate_csi.Snapshot.{Snapshot}
use roommate_csi.State.{Result, ok, err, Shared, Env}
use roommate_csi.State.Action.{Act, ◌>>=◌, interleave}
use roommate_csi.Cache.{second, set_from_watch, fresh}

pub data WatchOutcome : Type 0 where
  watch_stopped watch_closed watch_failed : WatchOutcome

-- An Added or Modified event with what `Decode` makes of its object, the events that end a watch,
-- and those that the loop ignores; the closing of the channel; and the end of the context.
pub data Signal : Type 0 where
  updated : Option Snapshot → Signal
  deleted error_event ignored closed ctx_ended : Signal

abbrev pub min_healthy_watch_duration : ℕ
min_healthy_watch_duration = second

abbrev pub min_backoff : ℕ
min_backoff = 100000000

abbrev pub max_backoff : ℕ
max_backoff = 5 * second

-- backoff = min(backoff*2, maxBackoff)
abbrev pub next_backoff : ℕ → ℕ
next_backoff backoff = if leb (backoff * 2) max_backoff then backoff * 2 else max_backoff

-- How a round of `Run` ends: the loop returns, or goes on with this backoff.
pub data Round : Type 0 where
  returns : Round
  again : ℕ → Round

module _ {W : Type 0} (env : Env W) where
  -- The result is `none` while the loop waits for the next signal.
  unfoldable pub watch_loop : ℕ → Bool → List Signal → Act W (Option (WatchOutcome × Bool))
  unfolding set_from_watch interleave
  watch_loop start delivered [] s = (none, s)
  watch_loop start delivered (updated snap ∷ rest) s =
      watch_loop start true rest (set_from_watch env snap (interleave env.others s))
  watch_loop start delivered (deleted ∷ rest) s = (some (watch_failed, false), s)
  watch_loop start delivered (error_event ∷ rest) s = (some (watch_failed, false), s)
  watch_loop start delivered (ignored ∷ rest) s =
      watch_loop start delivered rest (interleave env.others s)
  watch_loop start delivered (closed ∷ rest) s = (
    some (watch_closed, delivered || leb min_healthy_watch_duration (env.now s.shared - start)),
    s,
  )
  watch_loop start delivered (ctx_ended ∷ rest) s = (some (watch_stopped, false), s)

  abbrev pub opened : Result (List Signal) → Act W (Option (WatchOutcome × Bool))
  opened (ok signals) s = watch_loop (env.now s.shared) false signals s
  opened (err e) s =
      (some (if env.ctx_done s.shared then watch_stopped else watch_failed, false), s)

  module _ (open_watch : Str → Shared W → Result (List Signal) × Shared W) where
    unfoldable pub watch_once : Str → Act W (Option (WatchOutcome × Bool))
    unfolding watch_loop
    watch_once since s =
        let (r, shared) = open_watch since s.shared in opened r (record s { shared = shared })

    -- The sleep of a round, which the end of the context cuts short.
    abbrev pub slept : ℕ → Act W (Option Round)
    slept backoff s =
        let (awake, shared) = env.sleep backoff s.shared in
        (
          some (if awake then again (next_backoff backoff) else returns),
          record s { shared = shared },
        )

    abbrev pub watched : ℕ → Option (WatchOutcome × Bool) → Act W (Option Round)
    watched backoff none s = (none, s)
    watched backoff (some (watch_stopped, healthy)) s = (some returns, s)
    watched backoff (some (watch_closed, true)) s = (some (again min_backoff), s)
    watched backoff (some (watch_closed, false)) s = slept backoff s
    watched backoff (some (watch_failed, healthy)) s = slept backoff s

    abbrev pub synced : ℕ → Result Snapshot → Act W (Option Round)
    synced backoff (err e) s = slept backoff s
    synced backoff (ok snap) s = (watch_once snap.resource_version >>= watched backoff) s

    -- One round of `Run`.
    unfoldable pub run_round : ℕ → Act W (Option Round)
    unfolding watch_once fresh
    run_round backoff s =
        let (r, s') = (fresh env >>= synced backoff) s in
        if env.ctx_done s.shared then (some returns, s) else (r, s')
