-- ===== src/Handle/Locking.antt =====
-- `setlk` of pkg/objectfs/handle.go: what a lock holder sees, and how a request for a lock fails.
use roommate_csi.Prelude.{
  ℕ, ◌≡◌, ◌≢◌, ◌∙◌, refl, sym, ap, subst, Bool, true, false, Option, none, some, ◌∷◌, arith,
  ==-refl,
}
use roommate_csi.Snapshot.{Snapshot, get}
use roommate_csi.State.{Result, ok, err, Error, Handle, get_object, State, Env}
use roommate_csi.State.Action.{set_handle, interleave}
use roommate_csi.Cache.{fresh}
use roommate_csi.Volume.{Volume, new_lease}
use roommate_csi.Lease
use roommate_csi.Handle.{
  Errno, success, eintr, errno_for, handle, Grant, waiting, refused, granted, waited, tried, ask,
  value_or_empty, pin, finish, lock,
}

errno_for-ne-eintr : (e : Error) → errno_for e ≢ eintr
unfolding errno_for
errno_for-ne-eintr e h = ground arith

module _ {W : Type 0} (env : Env W) (s : State W) where
  waited-eintr :
      (r : Option (Result (Unit {0})))
      → waited env r s ≡ refused eintr
      → env.ctx_done s.shared ≡ true
  waited-eintr none e = ground arith
  waited-eintr (some (ok u)) e = ground arith
  waited-eintr (some (err x)) e = ground (arith, errno_for-ne-eintr x)

  tried-eintr : (r : Result Bool) → tried env r ≢ refused eintr
  tried-eintr (ok true) e = ground arith
  tried-eintr (ok false) e = ground arith
  tried-eintr (err x) e = ground (arith, errno_for-ne-eintr x)

  tried-ne-waiting : (r : Result Bool) → tried env r ≢ waiting
  tried-ne-waiting (ok true) e = ground arith
  tried-ne-waiting (ok false) e = ground arith
  tried-ne-waiting (err x) e = ground arith

module _ {W : Type 0} (env : Env W) (h i : ℕ) (s : State W) where
  -- The handle after the quorum read and whatever other goroutines did since.
  abbrev pub late_handle : Handle
  late_handle = handle h (interleave env.others (fresh env s).1)

  -- What the pinning of `snap` leaves, in the state `t`.
  abbrev pub Pinned : Snapshot → Option Errno × State W → Type 0
  Pinned snap (e, t) =
      (e ≡ some success)
      × ((handle h t).lease ≡ some i)
      × (late_handle.dirty ≡ false
          → ((handle h t).buf ≡ value_or_empty env (get snap late_handle.key))
            × ((handle h t).snap ≡ some snap))
      × (late_handle.dirty ≡ true → (handle h t).buf ≡ late_handle.buf)
      × (t.requests ≡ get_object ∷ s.requests)

  finish-Pinned :
      (snap : Snapshot)
      → (env.object_get s.shared).0 ≡ ok snap
      → Pinned snap (finish env h i granted s)
  unfolding fresh interleave set_handle
  finish-Pinned snap read = (
    ground arith,
    ground (arith, ==-refl h),
    λ clean. (ground (arith, ==-refl h), ground (arith, ==-refl h)),
    λ dirty. ground (arith, ==-refl h),
    ground arith,
  )

  finish-err :
      (e : Error)
      → (env.object_get s.shared).0 ≡ err e
      → finish env h i granted s ≡ (some (errno_for e), (Lease.release env i (fresh env s).1).1)
  unfolding fresh
  finish-err e read = ground arith

  pin-eintr : (r : Result Snapshot) (t : State W) → (pin env h i r t).0 ≢ some eintr
  pin-eintr (ok snap) t e = ground arith
  pin-eintr (err x) t e = ground (arith, errno_for-ne-eintr x)

module _ {W : Type 0} (env : Env W) (vol : Volume) (fuel : ℕ) (blocking : Bool) (h : ℕ)
    (s : State W) where
  -- The number of the new lease, and what came of asking for it.
  abbrev pub lease_no : ℕ
  lease_no = (new_lease vol s).0

  abbrev pub asked : Grant × State W
  asked = ask env fuel blocking lease_no (new_lease vol s).1

  lock-finish :
      (g : Grant) → asked.0 ≡ g → lock env vol fuel blocking h s ≡ finish env h lease_no g asked.1
  unfolding lock
  lock-finish g e = ap (λ x. finish env h lease_no x asked.1) e

  -- Once the lease is granted and the quorum read behind it returns a snapshot, the lock succeeds
  -- and the handle has the lease. Without unsaved writes it is pinned to that very snapshot, with
  -- the value of its key there, or no bytes if the key is gone, whatever other goroutines put into
  -- the cache meanwhile; with unsaved writes it keeps its buffer. The read is sent after all requests
  -- for the lease.
  pub lock-Pinned :
      (snap : Snapshot)
      → asked.0 ≡ granted
      → (env.object_get asked.1.shared).0 ≡ ok snap
      → Pinned env h lease_no asked.1 snap (lock env vol fuel blocking h s)
  lock-Pinned snap won read =
      subst (Pinned env h lease_no asked.1 snap) (sym (lock-finish granted won))
        (finish-Pinned env h lease_no asked.1 snap read)

  -- If the lease is granted and the quorum read fails, the lock fails with the error of the read, and
  -- the lease is released.
  pub lock_read_fails :
      (e : Error)
      → asked.0 ≡ granted
      → (env.object_get asked.1.shared).0 ≡ err e
      → lock env vol fuel blocking h s
        ≡ (some (errno_for e), (Lease.release env lease_no (fresh env asked.1).1).1)
  lock_read_fails e won read = lock-finish granted won ∙ finish-err env h lease_no asked.1 e read

ask-eintr :
    {W : Type 0} (env : Env W) (fuel : ℕ) (blocking : Bool) (i : ℕ) (s : State W)
    → (ask env fuel blocking i s).0 ≡ refused eintr
    → (blocking ≡ true) × (env.ctx_done (ask env fuel blocking i s).1.shared ≡ true)
unfolding ask
ask-eintr env fuel true i s e =
    (refl, waited-eintr env (Lease.acquire env fuel i s).1 (Lease.acquire env fuel i s).0 e)
ask-eintr env fuel false i s e = absurd (tried-eintr env s (Lease.try_acquire env i s).0 e)

module _ {W : Type 0} (env : Env W) (vol : Volume) (fuel : ℕ) (blocking : Bool) (h : ℕ)
    (s : State W) where
  finish-eintr :
      (g : Grant) (t : State W) (i : ℕ) → (finish env h i g t).0 ≡ some eintr → g ≡ refused eintr
  finish-eintr waiting t i e = ground arith
  finish-eintr (refused x) t i e = ground arith
  finish-eintr granted t i e = absurd (pin-eintr env h i t (fresh env t).0 (fresh env t).1 e)

  -- EINTR is the answer only to a blocking request whose context has ended.
  pub lock-eintr :
      (lock env vol fuel blocking h s).0 ≡ some eintr
      → (blocking ≡ true) × (env.ctx_done (asked env vol fuel blocking h s).1.shared ≡ true)
  unfolding lock
  lock-eintr e =
      ask-eintr env fuel blocking (lease_no env vol fuel blocking h s) (new_lease vol s).1 (
        finish-eintr (asked env vol fuel blocking h s).0 (asked env vol fuel blocking h s).1
          (lease_no env vol fuel blocking h s) e)
