-- ===== src/Tests/WatchRuns.antt =====
-- The theorems on the watch loop, for a watch with a stale event and a newer one.
use roommate_csi.Prelude.{◌≡◌, refl, false, some, List, [], ◌∷◌, arith}
use roommate_csi.Prelude.Bytes.{Str}
use roommate_csi.Number.{parse_uint, format_uint}
use roommate_csi.State.{Result, ok, Shared, Env}
use roommate_csi.Cache.Watch.{
  Signal, updated, ignored, closed, min_backoff, max_backoff, again, watch_once, watch_loop,
  run_round,
}
use roommate_csi.Cache.Watch.Progress.{IsAtLeast, watch_loop-IsAtLeast}
use roommate_csi.Cache.{fresh}
use roommate_csi.Tests.World.{World, env, start, stale, snapshot_of, world}

abbrev calm : Env World
calm = record env { host = record env.host { others = λ sh. sh } }

abbrev signals : List Signal
signals = updated (some (snapshot_of world)) ∷ ignored ∷ updated (some stale) ∷ closed ∷ []

watch_loop-IsAtLeast_example : IsAtLeast 3 (watch_loop calm 0 false signals start).1.shared.cur
unfolding parse_uint format_uint
watch_loop-IsAtLeast_example =
    watch_loop-IsAtLeast calm 3 (λ sh held. held) 0 false signals start
      ((7, refl), (tt, ((3, refl), (tt, tt)))) (3, refl, omega arith)

abbrev open_watch : Str → Shared World → Result (List Signal) × Shared World
open_watch since sh = (ok signals, sh)

-- A sleep always finds the context ended.
abbrev ending : Env World
ending = record calm { host = record calm.host { sleep = λ n sh. (false, sh) } }

goes_on : (run_round ending open_watch max_backoff start).0 ≡ some (again min_backoff)
unfolding run_round watch_once watch_loop fresh
goes_on = refl
