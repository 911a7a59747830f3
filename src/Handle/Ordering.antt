-- ===== src/Handle/Ordering.antt =====
-- `unlock` and `Release` of pkg/objectfs/handle.go: the write goes out before the lease.
use roommate_csi.Prelude.{
  ℕ, ◌≡◌, ◌⊎◌, inl, inr, refl, ap, Option, none, some, List, [], ◌∷◌, ◌++◌, All, arith, Bool-cases,
}
use roommate_csi.State.{
  Result, ok, err, Request, get_object, patch_object, get_lease, create_lease, update_lease, State,
  Env,
}
use roommate_csi.State.Action.{set_handle, set_manager}
use roommate_csi.Commit.Outcome.{requests-commit}
use roommate_csi.Commit
use roommate_csi.Lease
use roommate_csi.Lease.{read_lease, manager}
use roommate_csi.Lease.Renewal.{release-OwnWrites}
use roommate_csi.Handle.{handle, saved, commit, drop_lease, release_lease, unlock, release}

-- A request about the lease.
abbrev pub IsLeaseRequest : Request → Type 0
IsLeaseRequest get_lease = Unit
IsLeaseRequest (create_lease l) = Unit
IsLeaseRequest (update_lease l) = Unit
IsLeaseRequest get_object = ⊥
IsLeaseRequest (patch_object set del) = ⊥

-- `after` is `before` and then lease requests only.
abbrev pub ThenLease : List Request → List Request → Type 0
ThenLease after before = (more : List Request) × (after ≡ more ++ before) × All IsLeaseRequest more

module _ {W : Type 0} (env : Env W) where
  release-ThenLease :
      (i : ℕ) (s : State W) → ThenLease (Lease.release env i s).1.requests s.requests
  unfolding read_lease set_manager
  release-ThenLease i s = elim (Bool-cases (manager i s).held) [
    | inl held ↦ elim ((release-OwnWrites env i s).1 held).1 [
      | inl e ↦ (get_lease ∷ [], e, (tt, tt))
      | inr (l, cur, e, _, _, _) ↦ (update_lease l ∷ get_lease ∷ [], e, (tt, (tt, tt)))
    ]
    | inr free ↦ ([], ap (λ r. r.1.requests) ((release-OwnWrites env i s).0 free), tt)
  ]

  release_lease-ThenLease :
      (lease : Option ℕ) (s : State W) → ThenLease (release_lease env lease s).requests s.requests
  release_lease-ThenLease none s = ([], refl, tt)
  release_lease-ThenLease (some i) s = release-ThenLease i s

  drop_lease-ThenLease : (h : ℕ) (s : State W) → ThenLease (drop_lease env h s).requests s.requests
  unfolding drop_lease
  drop_lease-ThenLease h s =
      release_lease-ThenLease (handle h s).lease
        (set_handle h (record (handle h s) { lease = none }) s)

  -- What a commit of the handle sends: nothing, or one patch of its key.
  abbrev pub OnePatch : ℕ → State W → List Request → Type 0
  OnePatch h s after =
      (after ≡ s.requests)
      ⊎ (after ≡ patch_object (((handle h s).key, some (handle h s).buf) ∷ []) [] ∷ s.requests)

  saved-requests :
      (h : ℕ) (r : Result (Unit {0})) (s : State W) → (saved env h r s).1.requests ≡ s.requests
  unfolding set_handle
  saved-requests h (ok u) s = refl
  saved-requests h (err e) s = refl

  commit-OnePatch : (h : ℕ) (s : State W) → OnePatch h s (commit env h s).1.requests
  unfolding commit
  commit-OnePatch h s = ground (
    arith,
    requests-commit env s (handle h s).lease (((handle h s).key, some (handle h s).buf) ∷ []) [],
    saved-requests h
        (Commit.commit env (handle h s).lease (((handle h s).key, some (handle h s).buf) ∷ []) []
          s).0
        (Commit.commit env (handle h s).lease (((handle h s).key, some (handle h s).buf) ∷ []) []
          s).1,
  )

  -- An unlock sends at most one patch, of its own buffer, and after it requests about the lease
  -- only: the write is never sent behind the release. Its result is that of the commit.
  pub unlock_order :
      (h : ℕ) (s : State W)
      → OnePatch h s (commit env h s).1.requests
        × ThenLease (unlock env h s).1.requests (commit env h s).1.requests
        × ((unlock env h s).0 ≡ (commit env h s).0)
  unfolding unlock
  unlock_order h s = (commit-OnePatch h s, drop_lease-ThenLease h (commit env h s).1, refl)

  -- So does the release of a handle.
  pub release_order :
      (h : ℕ) (s : State W)
      → OnePatch h s (commit env h s).1.requests
        × ThenLease (release env h s).1.requests (commit env h s).1.requests
        × ((release env h s).0 ≡ (commit env h s).0)
  unfolding release
  release_order h s = (commit-OnePatch h s, drop_lease-ThenLease h (commit env h s).1, refl)
