-- ===== src/Lease/Attempt.antt =====
-- `TryAcquire` of pkg/objectfs/lease.go: what an attempt asks of the API server, and what it leaves.
use roommate_csi.Prelude.{
  ℕ, ◌≡◌, ◌⊎◌, inl, inr, refl, Bool, true, false, some, Bool-cases, List, ◌∷◌, arith, ==-refl,
}
use roommate_csi.State.{
  Result, ok, err, conflict, already_exists, not_found, Lease, Request, State, Env, get_lease,
  create_lease, update_lease,
}
use roommate_csi.Lease.Claim.{claimable-holder}
use roommate_csi.Lease.{
  claimable, fresh_lease, taken_over, manager, set_acquiring, start_renewal, created, taken, bid,
  answered, attempt, try_acquire, claim, take_over, create, read_lease,
}

start_renewal-held :
    {W : Type 0} (i : ℕ) (s : State W) → (manager i (start_renewal i s)).held ≡ true
unfolding start_renewal
start_renewal-held i s = ground (arith, ==-refl i)

module _ {W : Type 0} (env : Env W) (i : ℕ) where
  created-held :
      (r : Result (Unit {0})) (s : State W)
      → (created env i r s).0 ≡ ok true
      → (manager i (created env i r s).1).held ≡ true
  created-held (ok u) s h = start_renewal-held i s
  created-held (err already_exists) s h = ground arith
  created-held (err e) s h = ground arith

  taken-held :
      (r : Result (Unit {0})) (s : State W)
      → (taken env i r s).0 ≡ ok true
      → (manager i (taken env i r s).1).held ≡ true
  taken-held (ok u) s h = start_renewal-held i s
  taken-held (err conflict) s h = ground arith
  taken-held (err e) s h = ground arith

  bid-held :
      (cur : Lease) (won : Bool) (s : State W)
      → (bid env i cur won s).0 ≡ ok true
      → (manager i (bid env i cur won s).1).held ≡ true
  bid-held cur false s h = ground arith
  bid-held cur true s h = taken-held (take_over env i cur s).0 (take_over env i cur s).1 h

  answered-held :
      (r : Result Lease) (s : State W)
      → (answered env i r s).0 ≡ ok true
      → (manager i (answered env i r s).1).held ≡ true
  answered-held (ok cur) s h = bid-held cur (claim env i cur s).0 (claim env i cur s).1 h
  answered-held (err not_found) s h = created-held (create env i s).0 (create env i s).1 h
  answered-held (err e) s h = ground arith

  attempt-held :
      (s : State W) → (attempt env i s).0 ≡ ok true → (manager i (attempt env i s).1).held ≡ true
  unfolding attempt
  attempt-held s h = answered-held (read_lease env i s).0 (read_lease env i s).1 h

  -- When an attempt reports success, the manager holds the lease.
  pub try_acquire-held :
      (s : State W)
      → (try_acquire env i s).0 ≡ ok true
      → (manager i (try_acquire env i s).1).held ≡ true
  unfolding try_acquire
  try_acquire-held s h = ground (arith, attempt-held s, attempt-held (set_acquiring true s))

  -- A manager that holds the lease asks nothing. One that does not, and finds the mutex of its volume
  -- taken, reports at once that it did not get the lease, and asks nothing either. In every other
  -- case one attempt is made, and it leaves the mutex free.
  pub try_acquire_mutex :
      (s : State W)
      → (manager i s).has_local ≡ true
      → ((manager i s).held ≡ true → try_acquire env i s ≡ (ok true, s))
        × ((manager i s).held ≡ false → s.acquiring ≡ true → try_acquire env i s ≡ (ok false, s))
        × ((manager i s).held ≡ false
            → s.acquiring ≡ false
            → ((try_acquire env i s).0 ≡ (attempt env i (set_acquiring true s)).0)
              × ((try_acquire env i s).1.acquiring ≡ false))
  unfolding try_acquire
  try_acquire_mutex s has_mutex = (
    λ held. ground arith,
    λ free locked. ground arith,
    λ free open'. (ground arith, ground arith),
  )

  created-requests :
      (r : Result (Unit {0})) (s : State W) → (created env i r s).1.requests ≡ s.requests
  unfolding start_renewal
  created-requests (ok u) s = ground arith
  created-requests (err already_exists) s = refl
  created-requests (err e) s = refl

  taken-requests : (r : Result (Unit {0})) (s : State W) → (taken env i r s).1.requests ≡ s.requests
  unfolding start_renewal
  taken-requests (ok u) s = ground arith
  taken-requests (err conflict) s = refl
  taken-requests (err e) s = refl

  -- How an attempt may have written the lease, once the answer `r` to its read has come in `s`.
  abbrev pub Writes : Result Lease → State W → List Request → Type 0
  Writes r s after =
      (after ≡ s.requests)
      ⊎ ((l : Lease) × (after ≡ create_lease l ∷ s.requests)
          × (r ≡ err not_found)
          × (l.holder ≡ some (manager i s).holder))
      ⊎ ((l cur : Lease) × (after ≡ update_lease l ∷ s.requests)
          × (r ≡ ok cur)
          × ((claimable (env.now s.shared) (manager i s) cur).0 ≡ true)
          × (l.holder ≡ some (manager i s).holder)
          × (l.version ≡ cur.version))

  create-Writes :
      (s : State W) → Writes (err not_found) s (answered env i (err not_found) s).1.requests
  unfolding create fresh_lease
  create-Writes s = inr (
      inl (
        fresh_lease (env.now s.shared) (manager i s),
        created-requests (create env i s).0 (create env i s).1,
        refl,
        refl,
      ))

  take_over-Writes :
      (cur : Lease) (s : State W)
      → (claimable (env.now s.shared) (manager i s) cur).0 ≡ true
      → Writes (ok cur) s (answered env i (ok cur) s).1.requests
  unfolding claim take_over taken_over
  take_over-Writes cur s won =
      let s' : State W = (claim env i cur s).1 in
      inr (
        inr (
          taken_over (env.now s'.shared) (manager i s') cur,
          cur,
          rw won (taken-requests (take_over env i cur s').0 (take_over env i cur s').1),
          refl,
          won,
          ground (arith, ==-refl i, claimable-holder (env.now s.shared) (manager i s) cur),
          refl,
        ))

  answered-Writes : (r : Result Lease) (s : State W) → Writes r s (answered env i r s).1.requests
  unfolding claim
  answered-Writes (ok cur) s =
      elim (Bool-cases (claimable (env.now s.shared) (manager i s) cur).0) [
        | inl won ↦ take_over-Writes cur s won
        | inr lost ↦ inl (rw lost refl)
      ]
  answered-Writes (err not_found) s = create-Writes s
  answered-Writes (err e) s = inl refl

  -- After its read an attempt writes the lease in two cases only: it is created, in our name, if the
  -- read found none; or it is taken over, if the lease that was read is claimable, in our name and
  -- with the version that was read, so that a write of anybody else in between is a conflict. In
  -- every other case nothing is written.
  pub attempt-Writes :
      (s : State W)
      → ((read_lease env i s).1.requests ≡ get_lease ∷ s.requests)
        × Writes (read_lease env i s).0 (read_lease env i s).1 (attempt env i s).1.requests
  unfolding attempt
  attempt-Writes s = (refl, answered-Writes (read_lease env i s).0 (read_lease env i s).1)
