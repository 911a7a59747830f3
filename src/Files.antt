-- ===== src/Files.antt =====
-- pkg/objectfs/fs.go: the directory and the files of a mount. `same_parent` says whether the target
-- directory of a rename is this one, `trunc` whether the flags of an open carry O_TRUNC; a file
-- handle is the number of a `Handle`. Inodes are given by their attributes and number.
pub mod Opening
pub mod Renaming
pub mod Truncating
pub mod Resizing
use Prim.Native.Nat.{bit_or}
use roommate_csi.Prelude.{
  ℕ, Bool, true, false, Option, none, some, is_some, List, [], ◌∷◌, map, length, take, replicate,
  ltb, ◌||◌, ◌==◌, if◌then◌else◌,
}
use roommate_csi.Prelude.Bytes.{Bytes, Str}
use roommate_csi.Snapshot.{Snapshot, get, keys}
use roommate_csi.Keys.{valid_key, hash_key}
use roommate_csi.State.{Result, ok, err, Slice, Handle, Env}
use roommate_csi.State.Action.{Act, return, ◌>>=◌, set_handle}
use roommate_csi.Cache.{cache_bound, current, maybe_fresh}
use roommate_csi.Commit
use roommate_csi.Volume.{Volume, Config}
use roommate_csi.Handle.{
  Errno, success, eio, enoent, einval, eperm, exdev, enotsup, errno_for, new_handle, copy, truncate,
  handle, value_or_empty,
}

abbrev pub s_ifdir : ℕ
s_ifdir = 0o40000

abbrev pub s_ifreg : ℕ
s_ifreg = 0o100000

pub record Attr : Type 0 where
  pub mode : ℕ
  pub size : ℕ
  pub uid : ℕ
  pub gid : ℕ
  pub nlink : ℕ

-- What a request returns: an error, or its outputs with errno 0.
pub data Reply (A : Type 0) : Type 0 where
  reply : A → Reply A
  fails : Errno → Reply A

unfoldable pub fill_file_attr : Config → ℕ → Attr
fill_file_attr cfg size = record {
  mode = bit_or s_ifreg cfg.file_mode;
  size = size;
  uid = cfg.uid;
  gid = cfg.gid;
  nlink = 1;
}

-- `Root.Getattr`
unfoldable pub root_getattr : Config → Attr
root_getattr cfg = record {
  mode = bit_or s_ifdir cfg.dir_mode;
  size = 0;
  uid = cfg.uid;
  gid = cfg.gid;
  nlink = 2;
}

pub record DirEntry : Type 0 where
  pub name : Str
  pub mode : ℕ

abbrev pub listing : Option Snapshot → Reply (List DirEntry)
listing none = fails eio
listing (some snap) = reply (map (λ k. record { name = k; mode = s_ifreg }) (keys snap))

-- The value of a key in the served snapshot, with the errors of `Lookup`, `Getattr`, `Open` and
-- `Rename`.
abbrev pub present : Option Bytes → Reply Bytes
present none = fails enoent
present (some value) = reply value

abbrev pub value_in : Str → Option Snapshot → Reply Bytes
value_in key none = fails eio
value_in key (some snap) = present (get snap key)

abbrev pub on_reply : {A B : Type 0} → (A → B) → Reply A → Reply B
on_reply f (reply a) = reply (f a)
on_reply f (fails e) = fails e

-- What a `SETATTR` asks to set.
pub record SetAttr : Type 0 where
  pub mode : Option ℕ
  pub uid : Option ℕ
  pub gid : Option ℕ
  pub size : Option ℕ

abbrev pub errno_of : Result (Unit {0}) → Errno
errno_of (ok _) = success
errno_of (err e) = errno_for e

-- The value resized: cut, or filled up with zeros.
unfoldable pub resize : Bytes → ℕ → Bytes
unfolding copy
resize value size =
    if ltb size (length value)
    then take size value
    else if ltb (length value) size
    then copy (replicate size 0) value
    else value

-- The value of a missing key is nil, and stays so if its size is to be 0.
abbrev pub resized : Slice → ℕ → Slice
resized none size = if size == 0 then none else some (resize [] size)
resized (some value) size = some (resize value size)

module _ {W : Type 0} (env : Env W) (vol : Volume) where
  unfoldable pub served : Act W (Option Snapshot)
  served = maybe_fresh env (cache_bound vol.staleness_bound)

  unfoldable pub readdir : Act W (Reply (List DirEntry))
  readdir = do snap ← served; return (listing snap)

  -- The attributes and the inode number of a child.
  unfoldable pub lookup : Str → Act W (Reply (Attr × ℕ))
  lookup name = do
    snap ← served
    return (
        on_reply (λ value. (fill_file_attr vol.cfg (length value), hash_key name))
          (value_in name snap))

  unfoldable pub mkdir : Act W (Reply (Unit {0}))
  mkdir = return (fails enotsup)

  -- The new handle, with the attributes and the inode number of the new child.
  unfoldable pub create : Str → Act W (Reply (Handle × Attr × ℕ))
  unfolding new_handle
  create name s =
      if valid_key name
      then (
        reply (
          record (new_handle name (current s) []) { dirty = true },
          fill_file_attr vol.cfg 0,
          hash_key name,
        ),
        s,
      )
      else (fails einval, s)

  unfoldable pub unlink : Str → Act W Errno
  unlink name s = let (r, s') = Commit.commit env none [] (name ∷ []) s in (errno_of r, s')

  abbrev pub move : Str → Str → Reply Bytes → Act W Errno
  move name new_name (fails e) s = (e, s)
  move name new_name (reply value) s =
      let (r, s') = Commit.commit env none ((new_name, some value) ∷ []) (name ∷ []) s in
      (errno_of r, s')

  unfoldable pub rename : Str → Bool → Str → Act W Errno
  rename name same_parent new_name s =
      let (snap, s') = served s in
      let moved = move name new_name (value_in name snap) s' in
      if same_parent then (if valid_key new_name then moved else (einval, s)) else (exdev, s)

  abbrev pub store_resized : Str → ℕ → Option Snapshot → Act W Errno
  store_resized key size none s = (eio, s)
  store_resized key size (some snap) s =
      let (r, s') = Commit.commit env none ((key, resized (get snap key) size) ∷ []) [] s in
      (errno_of r, s')

  unfoldable pub truncate_committed : Str → ℕ → Act W Errno
  truncate_committed key size = do snap ← served; store_resized key size snap

  -- `Getattr` of the file of a key, with or without an open handle.
  unfoldable pub getattr : Str → Option ℕ → Act W (Reply Attr)
  getattr key (some h) s = (reply (fill_file_attr vol.cfg (length (handle h s).buf)), s)
  getattr key none s =
      let (snap, s') = served s in
      (on_reply (λ value. fill_file_attr vol.cfg (length value)) (value_in key snap), s')

  abbrev pub size_in : Str → Option Snapshot → ℕ
  size_in key none = 0
  size_in key (some snap) = length (value_or_empty env (get snap key))

  unfoldable pub post_setattr_size : Str → Option ℕ → Act W ℕ
  post_setattr_size key (some h) s = (length (handle h s).buf, s)
  post_setattr_size key none s = let (snap, s') = served s in (size_in key snap, s')

  -- The size branch of `Setattr`.
  unfoldable pub set_size : Str → Option ℕ → Option ℕ → Act W Errno
  unfolding set_handle
  set_size key fh none s = (success, s)
  set_size key (some h) (some size) s = (success, set_handle h (truncate (handle h s) size) s)
  set_size key none (some size) s = truncate_committed key size s

  abbrev pub report_attr : Str → Option ℕ → Errno → Act W (Reply Attr)
  report_attr key fh success s =
      let (size, s') = post_setattr_size key fh s in (reply (fill_file_attr vol.cfg size), s')
  report_attr key fh e s = (fails e, s)

  unfoldable pub setattr : Str → Option ℕ → SetAttr → Act W (Reply Attr)
  setattr key fh want s =
      let (e, s') = set_size key fh want.size s in
      let answer = report_attr key fh e s' in
      if is_some want.mode || is_some want.uid || is_some want.gid then (fails eperm, s) else answer

  abbrev pub opened : Str → Bool → Option Snapshot → Bytes → Handle
  opened key true snap value = record (new_handle key snap []) { dirty = true }
  opened key false snap value = new_handle key snap value

  unfoldable pub open_file : Str → Bool → Act W (Reply Handle)
  unfolding new_handle
  open_file key trunc s =
      let (snap, s') = served s in (on_reply (opened key trunc snap) (value_in key snap), s')
