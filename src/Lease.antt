-- ===== src/Lease.antt =====
-- pkg/objectfs/lease.go: one coordination.k8s.io Lease as the lock of one open handle. A manager is
-- named by its number in `Shared`; `Acquire` polls on fuel, with `none` when it runs out.
pub mod Record
pub mod Claim
pub mod Attempt
pub mod Renewal
pub mod Wait
pub mod Cluster
use roommate_csi.Prelude.{
  ℕ, zero, suc, ◌/◌, Bool, true, false, Option, none, some, [], if◌then◌else◌,
}
use roommate_csi.State.{
  Result, ok, err, lease_lost, conflict, already_exists, not_found, cancelled, Lease, Manager,
  State, Env, get_lease, create_lease, update_lease,
}
use roommate_csi.State.Action.{Act, ◌>>=◌, request, set_manager}
unfoldable pub use roommate_csi.Lease.Record.{
  default_lease_duration, lease_duration, new_manager, in_seconds, term, first_seen, observe, judge,
  claim_foreign, claim_holder, claimable, is_holder, fresh_lease, taken_over,
}

module _ {W : Type 0} where
  abbrev pub manager : ℕ → State W → Manager
  manager i s = s.shared.managers i

  abbrev pub set_acquiring : Bool → State W → State W
  set_acquiring b s = record s { shared = record s.shared { acquiring = b } }

  unfoldable pub start_renewal : ℕ → State W → State W
  unfolding set_manager
  start_renewal i s =
      if (manager i s).held
      then s
      else set_manager i (record (manager i s) { held = true; healthy = true; renewing = true }) s

module _ {W : Type 0} (env : Env W) where
  unfoldable pub read_lease : ℕ → Act W (Result Lease)
  unfolding request
  read_lease i s = request get_lease (env.lease_get (manager i s).ns (manager i s).name) s

  unfoldable pub create : ℕ → Act W (Result (Unit {0}))
  unfolding request
  create i s =
      let m = manager i s in
      let l = fresh_lease (env.now s.shared) m in
      request (create_lease l) (env.lease_create m.ns m.name l) s

  unfoldable pub write_lease : ℕ → Lease → Act W (Result (Unit {0}))
  unfolding request
  write_lease i l s =
      request (update_lease l) (env.lease_update (manager i s).ns (manager i s).name l) s

  unfoldable pub take_over : ℕ → Lease → Act W (Result (Unit {0}))
  unfolding write_lease
  take_over i cur s = write_lease i (taken_over (env.now s.shared) (manager i s) cur) s

  unfoldable pub claim : ℕ → Lease → Act W Bool
  unfolding claimable set_manager
  claim i cur s =
      let (yes', m) = claimable (env.now s.shared) (manager i s) cur in (yes', set_manager i m s)

  abbrev pub created : ℕ → Result (Unit {0}) → Act W (Result Bool)
  created i (ok _) s = (ok true, start_renewal i s)
  created i (err already_exists) s = (ok false, s)
  created i (err e) s = (err e, s)

  abbrev pub taken : ℕ → Result (Unit {0}) → Act W (Result Bool)
  taken i (ok _) s = (ok true, start_renewal i s)
  taken i (err conflict) s = (ok false, s)
  taken i (err e) s = (err e, s)

  abbrev pub bid : ℕ → Lease → Bool → Act W (Result Bool)
  bid i cur false s = (ok false, s)
  bid i cur true s = (take_over i cur >>= taken i) s

  abbrev pub answered : ℕ → Result Lease → Act W (Result Bool)
  answered i (ok cur) s = (claim i cur >>= bid i cur) s
  answered i (err not_found) s = (create i >>= created i) s
  answered i (err e) s = (err e, s)

  unfoldable pub attempt : ℕ → Act W (Result Bool)
  unfolding read_lease create take_over claim start_renewal
  attempt i = do r ← read_lease i; answered i r

  -- With the mutex of the volume, which is tried and never waited for.
  unfoldable pub try_acquire : ℕ → Act W (Result Bool)
  try_acquire i s =
      if (manager i s).held
      then (ok true, s)
      else if (manager i s).has_local
      then (if s.shared.acquiring
          then (ok false, s)
          else (let (r, s') = attempt i (set_acquiring true s) in (r, set_acquiring false s')))
      else attempt i s

  abbrev pub awake : Act W (Option (Result (Unit {0}))) → Bool → Act W (Option (Result (Unit {0})))
  awake rest true s = rest s
  awake rest false s = (some (err cancelled), s)

  -- `sleepCtx`, then the next round.
  abbrev pub poll :
      Act W (Option (Result (Unit {0}))) → ℕ → Result Bool → Act W (Option (Result (Unit {0})))
  poll rest interval (err e) s = (some (err e), s)
  poll rest interval (ok true) s = (some (ok tt), s)
  poll rest interval (ok false) s =
      let (slept, shared) = env.sleep interval s.shared in
      awake rest slept (record s { shared = shared })

  unfoldable pub acquire : ℕ → ℕ → Act W (Option (Result (Unit {0})))
  acquire zero i s = (none, s)
  acquire (suc fuel) i s =
      let interval = (manager i s).duration / 3 in
      (try_acquire i >>= poll (acquire fuel i) interval) s

  -- `apierrors.IsConflict(err) || apierrors.IsNotFound(err)`
  abbrev pub forgive : Result (Unit {0}) → Result (Unit {0})
  forgive (ok _) = ok tt
  forgive (err conflict) = ok tt
  forgive (err not_found) = ok tt
  forgive (err e) = err e

  abbrev pub give_up : ℕ → Result Lease → Act W (Result (Unit {0}))
  give_up i (err not_found) s = (ok tt, s)
  give_up i (err e) s = (err e, s)
  give_up i (ok cur) s =
      if is_holder (manager i s) cur.holder
      then (let (r, s') = write_lease i (record cur { holder = none; renew_time = none }) s in
          (forgive r, s'))
      else (ok tt, s)

  unfoldable pub release : ℕ → Act W (Result (Unit {0}))
  unfolding read_lease write_lease set_manager
  release i s =
      let idle =
        set_manager i (record (manager i s) { held = false; healthy = false; renewing = false })
          s in
      if (manager i s).held then (read_lease i >>= give_up i) idle else (ok tt, s)

  abbrev pub renewed : ℕ → Result Lease → Act W (Result (Unit {0}))
  renewed i (err e) s = (err e, s)
  renewed i (ok cur) s =
      if is_holder (manager i s) cur.holder
      then write_lease i (record cur { renew_time = some (env.now s.shared) }) s
      else (err lease_lost, s)

  unfoldable pub renew_once : ℕ → Act W (Result (Unit {0}))
  unfolding read_lease write_lease
  renew_once i = do r ← read_lease i; renewed i r

  abbrev pub succeeded : Result (Unit {0}) → Bool
  succeeded (ok _) = true
  succeeded (err e) = false

  -- One round of `renewLoop`, after its sleep.
  unfoldable pub renew_round : ℕ → State W → State W
  unfolding set_manager
  renew_round i s =
      let (r, s') = renew_once i s in
      set_manager i (record (manager i s') { healthy = succeeded r }) s'
