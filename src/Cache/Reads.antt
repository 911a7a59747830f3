-- ===== src/Cache/Reads.antt =====
-- What the reads of pkg/objectfs/cache.go return, and what they ask of the API server.
use roommate_csi.Prelude.{ℕ, ◌<◌, ◌-◌, ◌≡◌, ◌≢◌, false, none, some, ◌∷◌, arith}
use roommate_csi.Snapshot.{Snapshot}
use roommate_csi.State.{Result, ok, Entry, State, Env, get_object}
use roommate_csi.Cache.{current, fresh, maybe_fresh, within_bound, served}

module _ {W : Type 0} (env : Env W) (s : State W) where
  -- What the quorum read of `s` returns.
  abbrev pub answer : Result Snapshot
  answer = (env.object_get s.shared).0

  -- A successful `Fresh` returns what its one quorum read returned, and leaves that snapshot as the
  -- current one, whatever other goroutines cached while the read was under way. A failed one returns
  -- the error of the read. Either way exactly one read was sent.
  pub fresh_reads_once :
      ((fresh env s).0 ≡ answer)
      × ((fresh env s).1.requests ≡ get_object ∷ s.requests)
      × ((snap : Snapshot) → answer ≡ ok snap → current (fresh env s).1 ≡ some snap)
  unfolding fresh current
  fresh_reads_once = (ground arith, ground arith, λ snap h. ground arith)

  -- A cached snapshot that was confirmed within the bound is served as it is, and no request is
  -- sent.
  pub maybe_fresh_cached :
      (bound : ℕ) (e : Entry)
      → s.shared.cur ≡ some e
      → env.now s.shared - e.last_sync < bound
      → maybe_fresh env bound s ≡ (some e.snap, s)
  unfolding maybe_fresh
  maybe_fresh_cached bound e h lt = ground arith

  -- Past the bound, or with nothing cached, one quorum read is sent; its snapshot is served if it
  -- succeeds, and the old one, however stale, if it fails.
  pub maybe_fresh_expired :
      (bound : ℕ)
      → within_bound env bound s.shared.cur s ≡ false
      → ((maybe_fresh env bound s).0 ≡ served env s.shared.cur answer)
        × ((maybe_fresh env bound s).1.requests ≡ get_object ∷ s.requests)
  unfolding maybe_fresh
  maybe_fresh_expired bound h = (ground arith, ground arith)

  -- Once anything was cached, a read is served, whether or not the API server answers.
  pub maybe_fresh_serves :
      (bound : ℕ) (e : Entry) → s.shared.cur ≡ some e → (maybe_fresh env bound s).0 ≢ none
  unfolding maybe_fresh
  maybe_fresh_serves bound e h = ground arith
