-- ===== src/Files/Opening.antt =====
-- `Open`, `Create`, `Getattr` and `Readdir` of pkg/objectfs/fs.go: what a reader sees.
use roommate_csi.Prelude.{
  ℕ, ◌+◌, ◌≡◌, ◌∙◌, ap, Bool, true, false, some, [], ◌∷◌, take, get_elem?, list_ext, get_elem?-take,
  get_elem?-take_beyond, arith,
}
use roommate_csi.Prelude.Bytes.{Bytes, Str}
use roommate_csi.Prelude.Int.{pos}
use roommate_csi.Keys.{valid_key, hash_key}
use roommate_csi.Snapshot.{Snapshot, get}
use roommate_csi.State.{Handle, patch_object, State, Env}
use roommate_csi.Cache.{current}
use roommate_csi.Volume.{Volume}
use roommate_csi.Handle.{success, einval, handle, read, commit, new_handle}
use roommate_csi.Handle.Buffer.{get_elem?-read}
use roommate_csi.Handle.Saving.{requests_saved}
use roommate_csi.Files.{reply, fails, served, opened, fill_file_attr, open_file, create}

read-all : (v : Handle) (n : ℕ) → read v n (pos 0) ≡ take n v.buf
read-all v n = list_ext _ _ λ j. ground (
  arith,
  get_elem?-read v n 0 j,
  get_elem?-take n j v.buf,
  get_elem?-take_beyond n j v.buf,
  ap (get_elem? v.buf) (zero_plus j),
)
  where
    zero_plus : (j : ℕ) → 0 + j ≡ j
    zero_plus j = omega arith

module _ {W : Type 0} (env : Env W) (vol : Volume) (key : Str) (s : State W) where
  -- An open finds the key in the served snapshot `snap`, and sends nothing beyond the read that
  -- serving may take. Without O_TRUNC reads of the new handle return the value there, and a status
  -- its size; with O_TRUNC the handle is empty and dirty, and the value is left to its commit.
  pub open_file_lem :
      (trunc : Bool) (snap : Snapshot) (value : Bytes)
      → (served env vol s).0 ≡ some snap
      → get snap key ≡ some value
      → (v : Handle) × (open_file env vol key trunc s ≡ (reply v, (served env vol s).1))
        × (v.snap ≡ some snap)
        × (v.key ≡ key)
        × (trunc ≡ false → ((n : ℕ) → read v n (pos 0) ≡ take n value) × (v.dirty ≡ false))
        × (trunc ≡ true → (v.buf ≡ []) × (v.dirty ≡ true))
  unfolding open_file
  open_file_lem trunc snap value found has = (
    opened env vol key trunc (some snap) value,
    ground arith,
    ground arith,
    ground arith,
    λ plain. (λ n. read-all _ n ∙ ap (take n) (ground arith), ground arith),
    λ cut. (ground arith, ground arith),
  )

  -- A valid name makes a new handle and sends nothing yet. The handle is empty and dirty, so when it is
  -- committed, under whatever number and with nothing written, a success has sent the key with no
  -- bytes. An invalid name is refused.
  pub create_lem :
      (valid_key key ≡ false → create env vol key s ≡ (fails einval, s))
      × (valid_key key ≡ true
          → (v : Handle) × (create env vol key s
              ≡ (reply (v, fill_file_attr vol.cfg 0, hash_key key), s))
            × ((h : ℕ) (t : State W)
                → handle h t ≡ v
                → (commit env h t).0 ≡ success
                → (commit env h t).1.requests ≡ patch_object ((key, some []) ∷ []) [] ∷ t.requests))
  unfolding create
  create_lem = (
    λ invalid. ground arith,
    λ valid. (
      record (new_handle key (current s) []) { dirty = true },
      ground arith,
      λ h t e done.
          requests_saved env h t (ap (λ v. v.dirty) e) done
          ∙ ap (λ v. patch_object ((v.key, some v.buf) ∷ []) [] ∷ t.requests) e,
    ),
  )
