-- ===== src/Lease/Renewal.antt =====
-- `Release` and `renewLoop` of pkg/objectfs/lease.go: giving the lease up, and keeping it.
use roommate_csi.Prelude.{
  ℕ, ◌≡◌, ◌⊎◌, inl, inr, refl, true, false, not, ◌&&◌, none, some, Bool-cases, List, ◌∷◌, arith,
  ==-refl, if-true, if-false,
}
use roommate_csi.State.{Result, ok, err, not_found, Lease, Request, State, Env, update_lease}
use roommate_csi.State.Action.{set_manager}
use roommate_csi.Commit.{healthy, fenced}
use roommate_csi.Lease.{
  manager, is_holder, give_up, release, renewed, renew_once, renew_round, succeeded, read_lease,
  write_lease,
}

module _ {W : Type 0} (env : Env W) (i : ℕ) where
  -- How the lease may be written once the answer `r` to a read has come in `s`: with the version
  -- that was read, and only if the read shows it as our own.
  abbrev pub OwnWrites : Result Lease → State W → List Request → Type 0
  OwnWrites r s after =
      (after ≡ s.requests)
      ⊎ ((l cur : Lease) × (after ≡ update_lease l ∷ s.requests)
          × (r ≡ ok cur)
          × (is_holder (manager i s) cur.holder ≡ true)
          × (l.version ≡ cur.version))

  give_up-OwnWrites :
      (r : Result Lease) (s : State W) → OwnWrites r s (give_up env i r s).1.requests
  unfolding write_lease
  give_up-OwnWrites (err not_found) s = inl refl
  give_up-OwnWrites (err e) s = inl refl
  give_up-OwnWrites (ok cur) s = elim (Bool-cases (is_holder (manager i s) cur.holder)) [
    | inl ours ↦
        inr (record cur { holder = none; renew_time = none }, cur, rw ours refl, refl, ours, refl)
    | inr lost ↦ inl (rw lost refl)
  ]

  renewed-OwnWrites :
      (r : Result Lease) (s : State W) → OwnWrites r s (renewed env i r s).1.requests
  unfolding write_lease
  renewed-OwnWrites (err e) s = inl refl
  renewed-OwnWrites (ok cur) s = elim (Bool-cases (is_holder (manager i s) cur.holder)) [
    | inl ours ↦
        inr
          (record cur { renew_time = some (env.now s.shared) }, cur, rw ours refl, refl, ours, refl)
    | inr lost ↦ inl (rw lost refl)
  ]

  abbrev pub idle : State W → State W
  idle s =
      set_manager i (record (manager i s) { held = false; healthy = false; renewing = false }) s

  release-idle :
      (s : State W)
      → (manager i s).held ≡ true
      → release env i s ≡ give_up env i (read_lease env i (idle s)).0 (read_lease env i (idle s)).1
  unfolding release
  release-idle s held = if-true (manager i s).held _ _ held

  -- Releasing a lease that is not held changes nothing. Releasing one that is held first marks it as
  -- not held, and then reads the lease; it is written only if the read shows it as our own, and with
  -- the version that was read.
  pub release-OwnWrites :
      (s : State W)
      → ((manager i s).held ≡ false → release env i s ≡ (ok tt, s))
        × ((manager i s).held ≡ true
            → (healthy i (idle s) ≡ false)
              × OwnWrites
                  (read_lease env i (idle s)).0
                  (read_lease env i (idle s)).1
                  (release env i s).1.requests)
  unfolding healthy release
  release-OwnWrites s = (
    λ free. if-false (manager i s).held _ _ free,
    λ held. (
      ground (arith, ==-refl i),
      rw (release-idle s held)
          (give_up-OwnWrites (read_lease env i (idle s)).0 (read_lease env i (idle s)).1),
    ),
  )

  -- After its read a renewal writes the lease at most once, only if the read shows it as our own, and
  -- with the version that was read.
  pub renew_once-OwnWrites :
      (s : State W)
      → OwnWrites (read_lease env i s).0 (read_lease env i s).1 (renew_once env i s).1.requests
  unfolding renew_once
  renew_once-OwnWrites s = renewed-OwnWrites (read_lease env i s).0 (read_lease env i s).1

  -- After a round of the renewal loop, commits under the lease are fenced exactly if the renewal
  -- failed or the lease is not held. A renewal fails if the lease is found in other hands.
  pub fenced-renew_round :
      (s : State W)
      → (fenced (some i) (renew_round env i s)
          ≡ not ((manager i (renew_once env i s).1).held && succeeded env (renew_once env i s).0))
        × ((cur : Lease)
            → (read_lease env i s).0 ≡ ok cur
            → is_holder (manager i (read_lease env i s).1) cur.holder ≡ false
            → fenced (some i) (renew_round env i s) ≡ true)
  unfolding fenced renew_round healthy renew_once
  fenced-renew_round s = (ground (arith, ==-refl i), λ cur e lost. ground (arith, ==-refl i))
