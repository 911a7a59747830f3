-- ===== src/Files/Resizing.antt =====
-- The truncations of pkg/objectfs/fs.go, with an open handle and without one.
use roommate_csi.Prelude.{
  ℕ, zero, ◌≡◌, ◌∙◌, sym, ap, true, false, ◌||◌, Option, none, some, is_some, or_else, length,
  get_elem?, replicate, length-replicate, get_elem?-take, get_elem?-take_beyond, get_elem?_beyond,
  get_elem?_within, list_ext, ltb, ==-refl, arith, if◌then◌else◌,
}
use roommate_csi.Prelude.Bytes.{Bytes, Str}
use roommate_csi.State.{Handle, State, Env}
use roommate_csi.Volume.{Volume}
use roommate_csi.Handle.{eperm, copy, truncate, handle}
use roommate_csi.Handle.Buffer.{get_elem?-padded, length-copy, get_elem?-truncate}
use roommate_csi.Files.{
  reply, fails, Attr, SetAttr, resize, set_size, setattr, post_setattr_size, fill_file_attr,
}

get_elem?-resize :
    (value : Bytes) (size i : ℕ)
    → get_elem? (resize value size) i
      ≡ (if ltb i size then or_else (get_elem? value i) (some 0) else none)
unfolding resize
get_elem?-resize value size i = ground (
  arith,
  get_elem?-take size i value,
  get_elem?-take_beyond size i value,
  get_elem?-padded size value i,
  get_elem?_beyond (copy (replicate size 0) value) i,
  length-copy (replicate size 0) value,
  length-replicate size (zero),
  get_elem?_beyond value i,
  get_elem?_within value i,
)

-- A truncation by path stores the very bytes that a truncation by handle would leave in the buffer:
-- those in front of the new size, and zeros behind the old one.
pub resize-truncate :
    (v : Handle) (size : ℕ)
    → (resize v.buf size ≡ (truncate v size).buf) × (length (resize v.buf size) ≡ size)
resize-truncate v size =
    let same : resize v.buf size ≡ (truncate v size).buf =
      list_ext _ _ λ i. get_elem?-resize v.buf size i ∙ sym (get_elem?-truncate v size i).0 in
    (same, ap length same ∙ (get_elem?-truncate v size 0).1)

module _ {W : Type 0} (env : Env W) (vol : Volume) (key : Str) (s : State W) where
  -- A change of mode or owner is refused and changes nothing, also if a size comes with it.
  pub setattr_refuses :
      (fh : Option ℕ) (want : SetAttr)
      → is_some want.mode || is_some want.uid || is_some want.gid ≡ true
      → setattr env vol key fh want s ≡ (fails eperm, s)
  unfolding setattr
  setattr_refuses fh want owner = ground arith

  -- A truncation of an open handle is reported with the new size, and sends nothing: the buffer has
  -- that length, and waits for the handle's commit.
  pub setattr_buffers :
      (h size : ℕ) (want : SetAttr)
      → is_some want.mode || is_some want.uid || is_some want.gid ≡ false
      → want.size ≡ some size
      → (attr : Attr) × ((setattr env vol key (some h) want s).0 ≡ reply attr)
        × (attr.size ≡ size)
        × ((handle h (setattr env vol key (some h) want s).1) ≡ truncate (handle h s) size)
        × ((setattr env vol key (some h) want s).1.requests ≡ s.requests)
  unfolding setattr set_size post_setattr_size fill_file_attr
  setattr_buffers h size want owner sized = (
    fill_file_attr vol.cfg (length (handle h (set_size env vol key (some h) (some size) s).1).buf),
    ground arith,
    ground (arith, ==-refl h, (get_elem?-truncate (handle h s) size 0).1),
    ground (arith, ==-refl h),
    ground arith,
  )
