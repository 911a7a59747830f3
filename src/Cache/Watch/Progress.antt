-- ===== src/Cache/Watch/Progress.antt =====
-- The watch loop of pkg/objectfs/cache.go: what it does to the cached version, and its backoff.
use roommate_csi.Prelude.{
  some_inj, ℕ, ◌≤◌, ◌≡◌, refl, sym, subst, ◌∙◌, ap, Bool, true, false, Option, none, some, List, [],
  ◌∷◌, All, arith, Bool-cases, inl, inr,
}
use roommate_csi.Prelude.Bytes.{Str}
use roommate_csi.Snapshot.{Snapshot}
use roommate_csi.State.{Result, ok, err, Entry, Shared, State, Env}
use roommate_csi.State.Action.{interleave}
use roommate_csi.Cache.{current, snap_of, set_from_watch, fresh}
use roommate_csi.Cache.Versions.{version, set_from_watch_newer}
use roommate_csi.Cache.Watch.{
  WatchOutcome, watch_stopped, watch_closed, watch_failed, Signal, updated, deleted, error_event,
  ignored, closed, ctx_ended, min_backoff, max_backoff, Round, returns, again, watch_loop,
  watch_once, slept, watched, synced, run_round,
}

-- The cached snapshot has a version that is a number and at least `old`.
abbrev pub IsAtLeast : ℕ → Option Entry → Type 0
IsAtLeast old none = ⊥
IsAtLeast old (some e) = (v : ℕ) × (version e.snap ≡ some v) × (old ≤ v)

abbrev pub IsNumbered : Signal → Type 0
IsNumbered (updated none) = Unit
IsNumbered (updated (some snap)) = (v : ℕ) × (version snap ≡ some v)
IsNumbered deleted = Unit
IsNumbered error_event = Unit
IsNumbered ignored = Unit
IsNumbered closed = Unit
IsNumbered ctx_ended = Unit

-- A round leaves a backoff within the bounds.
abbrev pub IsBounded : Option Round → Type 0
IsBounded none = Unit
IsBounded (some returns) = Unit
IsBounded (some (again b)) = (min_backoff ≤ b) × (b ≤ max_backoff)

snap_of-IsAtLeast :
    (old : ℕ) (o : Option Entry) (snap : Snapshot) (v : ℕ)
    → snap_of o ≡ some snap
    → version snap ≡ some v
    → old ≤ v
    → IsAtLeast old o
snap_of-IsAtLeast old none snap v e n le = ground arith
snap_of-IsAtLeast old (some x) snap v e n le = (v, ap version (some_inj.0 e) ∙ n, le)

module _ {W : Type 0} (env : Env W) (old : ℕ)
    (quiet : (sh : Shared W) → IsAtLeast old sh.cur → IsAtLeast old (env.others sh).cur) where
  set_from_watch-IsAtLeast :
      (o : Option Entry) (snap : Snapshot) (v : ℕ) (s : State W)
      → s.shared.cur ≡ o
      → version snap ≡ some v
      → IsAtLeast old o
      → IsAtLeast old (set_from_watch env (some snap) s).shared.cur
  unfolding current
  set_from_watch-IsAtLeast none snap v s e n held = absurd held
  set_from_watch-IsAtLeast (some x) snap v s e n (vx, nx, le) =
      elim (set_from_watch_newer env s x snap vx v e nx n) [
        | inl (newer, cached) ↦ snap_of-IsAtLeast old _ snap v cached n (omega arith)
        | inr (older, same) ↦
            subst (IsAtLeast old) (sym (ap (λ t. t.shared.cur) same ∙ e)) (vx, nx, le)
      ]

  -- Suppose that every event carries a version that is a number, and that no other goroutine lowers
  -- the cached version below `old`. Then a watch, whichever events arrive in whichever order, leaves a
  -- snapshot whose version is at least `old` if it found one.
  pub watch_loop-IsAtLeast :
      (start : ℕ) (delivered : Bool) (signals : List Signal) (s : State W)
      → All IsNumbered signals
      → IsAtLeast old s.shared.cur
      → IsAtLeast old (watch_loop env start delivered signals s).1.shared.cur
  unfolding watch_loop interleave
  watch_loop-IsAtLeast start delivered [] s n held = held
  watch_loop-IsAtLeast start delivered (updated none ∷ rest) s n held =
      watch_loop-IsAtLeast start true rest _ n.1 (quiet s.shared held)
  watch_loop-IsAtLeast start delivered (updated (some snap) ∷ rest) s ((v, nv), n) held =
      watch_loop-IsAtLeast start true rest _ n (
        set_from_watch-IsAtLeast (env.others s.shared).cur snap v (interleave env.others s) refl nv
          (quiet s.shared held))
  watch_loop-IsAtLeast start delivered (deleted ∷ rest) s n held = held
  watch_loop-IsAtLeast start delivered (error_event ∷ rest) s n held = held
  watch_loop-IsAtLeast start delivered (ignored ∷ rest) s n held =
      watch_loop-IsAtLeast start delivered rest _ n.1 (quiet s.shared held)
  watch_loop-IsAtLeast start delivered (closed ∷ rest) s n held = held
  watch_loop-IsAtLeast start delivered (ctx_ended ∷ rest) s n held = held

module _ {W : Type 0} (env : Env W) (open_watch : Str → Shared W → Result (List Signal) × Shared W)
    (backoff : ℕ) (low : min_backoff ≤ backoff) (high : backoff ≤ max_backoff) where
  slept-IsBounded : (s : State W) → IsBounded (slept env open_watch backoff s).0
  slept-IsBounded s = elim (Bool-cases (env.sleep backoff s.shared).0) [
    | inl awake ↦ rw awake (ground arith, ground arith)
    | inr ended ↦ rw ended tt
  ]

  watched-IsBounded :
      (r : Option (WatchOutcome × Bool)) (s : State W)
      → IsBounded (watched env open_watch backoff r s).0
  watched-IsBounded none s = tt
  watched-IsBounded (some (watch_stopped, healthy)) s = tt
  watched-IsBounded (some (watch_closed, true)) s = (omega arith, omega arith)
  watched-IsBounded (some (watch_closed, false)) s = slept-IsBounded s
  watched-IsBounded (some (watch_failed, healthy)) s = slept-IsBounded s

  synced-IsBounded :
      (r : Result Snapshot) (s : State W) → IsBounded (synced env open_watch backoff r s).0
  synced-IsBounded (err e) s = slept-IsBounded s
  synced-IsBounded (ok snap) s =
      let w = watch_once env open_watch snap.resource_version s in watched-IsBounded w.0 w.1

  -- From a backoff between 100 ms and 5 s a round of the watch loop goes on, if it does, with one in
  -- the same bounds.
  pub run_round-IsBounded : (s : State W) → IsBounded (run_round env open_watch backoff s).0
  unfolding run_round
  run_round-IsBounded s = elim (Bool-cases (env.ctx_done s.shared)) [
    | inl ended ↦ rw ended tt
    | inr alive ↦ rw alive (synced-IsBounded (fresh env s).0 (fresh env s).1)
  ]
