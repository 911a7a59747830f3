-- ===== src/Handle.antt =====
-- pkg/objectfs/handle.go: one open file description, named by its number in `Shared`. The results
-- that cannot go to the wire are errno values; `success` is 0. Offsets and sizes are those that the
-- kernel sends: their sums fit an int64.
pub mod Buffer
pub mod Saving
pub mod Ordering
pub mod Locking
use roommate_csi.Prelude.{
  ℕ, ◌+◌, ◌-◌, ◌%◌, ◌^◌, Bool, true, false, Option, none, some, [], ◌∷◌, ◌++◌, length, take, drop,
  replicate, ltb, leb, ◌==◌, if◌then◌else◌,
}
use roommate_csi.Prelude.Bytes.{Bytes, Str}
use roommate_csi.Prelude.Int.{ℤ, pos, negsuc}
use roommate_csi.Snapshot.{Snapshot, get}
use roommate_csi.State.{
  Result, ok, err, Error, too_large, lease_lost, forbidden, unauthorized, not_found,
  entity_too_large, Handle, State, Env,
}
use roommate_csi.State.Action.{Act, ◌>>=◌, ◌>>◌, set_handle, interleave}
use roommate_csi.Cache.{fresh}
use roommate_csi.Commit
use roommate_csi.Lease
use roommate_csi.Volume.{Volume, new_lease}

pub data Errno : Type 0 where
  success enospc eio eacces enoent einval eperm exdev enotsup ewouldblock eintr : Errno

unfoldable pub errno_for : Error → Errno
errno_for too_large = enospc
errno_for lease_lost = eio
errno_for forbidden = eacces
errno_for unauthorized = eacces
errno_for not_found = enoent
errno_for entity_too_large = enospc
errno_for e = eio

unfoldable pub new_handle : Str → Option Snapshot → Bytes → Handle
new_handle key snap value = record {
  key = key;
  snap = snap;
  buf = value;
  dirty = false;
  lease = none;
}

-- Go's `copy(dst, src)`.
unfoldable pub copy : Bytes → Bytes → Bytes
copy [] src = []
copy (d ∷ dst) [] = d ∷ dst
copy (d ∷ dst) (b ∷ src) = b ∷ copy dst src

-- `copy(dst[off:], src)`
unfoldable pub copy_at : ℕ → Bytes → Bytes → Bytes
unfolding copy
copy_at off dst src = take off dst ++ copy (drop off dst) src

abbrev pub read_from : ℕ → ℕ → Bytes → Bytes
read_from off n buf =
    let end' = if ltb (length buf) (off + n) then length buf else off + n in
    if leb (length buf) off then [] else take (end' - off) (drop off buf)

-- `Read` of `n` bytes at `off`.
unfoldable pub read : Handle → ℕ → ℤ → Bytes
read v n (pos off) = read_from off n v.buf
read v n (negsuc k) = []

abbrev pub write_at : ℕ → Bytes → Handle → Handle
write_at off bytes v =
    let size =
      if ltb (length v.buf) (off + length bytes) then off + length bytes else length v.buf in
    record v { buf = copy_at off (copy (replicate size 0) v.buf) bytes; dirty = true }

-- `Write` of `bytes` at `off`: the handle after it, and the count or the error.
unfoldable pub write : Handle → Bytes → ℤ → Handle × ℕ × Errno
unfolding copy_at
write v bytes (pos off) = (write_at off bytes v, length bytes % 2 ^ 32, success)
write v bytes (negsuc k) = (v, 0, einval)

unfoldable pub truncate : Handle → ℕ → Handle
unfolding copy
truncate v size =
    if size == length v.buf
    then v
    else record v { buf = copy (replicate size 0) v.buf; dirty = true }

pub data LockType : Type 0 where
  read_lock write_lock no_lock : LockType

-- What came of the wait for a lease.
pub data Grant : Type 0 where
  waiting : Grant
  refused : Errno → Grant
  granted : Grant

module _ {W : Type 0} where
  abbrev pub handle : ℕ → State W → Handle
  handle h s = s.shared.handles h

module _ {W : Type 0} (env : Env W) where
  -- Clears `dirty` on the handle as it is by now.
  abbrev pub saved : ℕ → Result (Unit {0}) → Act W Errno
  saved h (ok _) s = (success, set_handle h (record (handle h s) { dirty = false }) s)
  saved h (err e) s = (errno_for e, s)

  unfoldable pub commit : ℕ → Act W Errno
  unfolding set_handle
  commit h s =
      let v = handle h s in
      let (r, s') = Commit.commit env v.lease ((v.key, some v.buf) ∷ []) [] s in
      if v.dirty then saved h r s' else (success, s)

  abbrev pub release_lease : Option ℕ → State W → State W
  release_lease none s = s
  release_lease (some i) s = (Lease.release env i s).1

  -- Takes the lease off the handle, and releases it.
  unfoldable pub drop_lease : ℕ → State W → State W
  unfolding set_handle
  drop_lease h s =
      let v = handle h s in release_lease v.lease (set_handle h (record v { lease = none }) s)

  unfoldable pub unlock : ℕ → Act W Errno
  unfolding commit drop_lease
  unlock h s = let (e, s') = commit h s in (e, drop_lease h s')

  unfoldable pub release : ℕ → Act W Errno
  unfolding commit drop_lease
  release h s = let (e, s') = commit h s in (e, drop_lease h s')

  abbrev pub waited : Option (Result (Unit {0})) → State W → Grant
  waited none s = waiting
  waited (some (ok _)) s = granted
  waited (some (err e)) s = refused (if env.ctx_done s.shared then eintr else errno_for e)

  abbrev pub tried : Result Bool → Grant
  tried (ok true) = granted
  tried (ok false) = refused ewouldblock
  tried (err e) = refused (errno_for e)

  -- The blocking and the non-blocking request for a lease.
  unfoldable pub ask : ℕ → Bool → ℕ → Act W Grant
  unfolding errno_for
  ask fuel true i s = let (r, s') = Lease.acquire env fuel i s in (waited r s', s')
  ask fuel false i s = let (r, s') = Lease.try_acquire env i s in (tried r, s')

  -- The value of the key in the snapshot, or no bytes if the key is gone.
  abbrev pub value_or_empty : Option Bytes → Bytes
  value_or_empty none = []
  value_or_empty (some value) = value

  abbrev pub repin : ℕ → Snapshot → Handle → Handle
  repin i snap v =
      if v.dirty
      then record v { lease = some i }
      else record v { lease = some i; snap = some snap; buf = value_or_empty (get snap v.key) }

  -- Other goroutines may run between the quorum read and the pinning of its result.
  abbrev pub pin : ℕ → ℕ → Result Snapshot → Act W (Option Errno)
  pin h i (err e) s = (some (errno_for e), (Lease.release env i s).1)
  pin h i (ok snap) s =
      let s' = interleave env.others s in
      (some success, set_handle h (repin i snap (handle h s')) s')

  abbrev pub finish : ℕ → ℕ → Grant → Act W (Option Errno)
  finish h i waiting s = (none, s)
  finish h i (refused e) s = (some e, s)
  finish h i granted s = (fresh env >>= pin h i) s

  unfoldable pub lock : Volume → ℕ → Bool → ℕ → Act W (Option Errno)
  unfolding set_handle interleave
  lock vol fuel blocking h = do i ← new_lease vol; grant ← ask fuel blocking i; finish h i grant

  abbrev pub has_lease : Option ℕ → Bool
  has_lease none = false
  has_lease (some i) = true

  -- `setlk`: `flock` says whether the flags carry FUSE_LK_FLOCK. The result is `none` while the wait
  -- goes on after all fuel.
  unfoldable pub setlk : Volume → ℕ → Bool → LockType → Bool → ℕ → Act W (Option Errno)
  setlk vol fuel flock no_lock blocking h s =
      let (e, s') = unlock h s in if flock then (some e, s') else (some enotsup, s)
  setlk vol fuel flock kind blocking h s =
      let locked = lock vol fuel blocking h s in
      if flock
      then (if has_lease (handle h s).lease then (some success, s) else locked)
      else (some enotsup, s)
