-- ===== src/Mounts/Recorded.antt =====
-- The record of one target, in memory and in the state file, through the operations of
-- pkg/mounts/registry.go.
use roommate_csi.Prelude.{
  ℕ, ◌≡◌, refl, true, false, Option, none, some, is_some, Bool-cases, inl, inr, arith,
}
use roommate_csi.Prelude.Bytes.{Bytes, Str, str_eq}
use roommate_csi.Map.{Map, lookup, insert, delete}
use roommate_csi.Map.Laws.{lookup-insert, lookup-insert_same, lookup-delete}
use roommate_csi.Mounts.{
  Mount, Node, Disk, Kernel, Fault, loaded, persist, new_registry, put, remove, forget,
}
use roommate_csi.Mounts.Persistence.{Persists, persist-Persists}
use roommate_csi.Mounts.Stability.{IsStable, torn_down_keeps}

-- The target has a record in the map.
abbrev pub InMap : Str → Map Mount → Type 0
InMap target m = is_some (lookup target m) ≡ true

InMap-insert :
    (target k : Str) (v : Mount) (m : Map Mount) → InMap target m → InMap target (insert k v m)
InMap-insert target k v m has = elim (Bool-cases (str_eq k target)) [
  | inl same ↦ rw (lookup-insert target k v m, same) refl
  | inr other ↦ rw (lookup-insert target k v m, other) has
]

InMap-delete :
    (target k : Str) (m : Map Mount)
    → str_eq k target ≡ false
    → InMap target m
    → InMap target (delete k m)
InMap-delete target k m other has = rw (lookup-delete target k m, other) has

module _ {W : Type 0} (disk : Disk W) (target : Str) where
  -- What a restart would load has a record of the target.
  abbrev pub InFile : Node W → Type 0
  InFile n = InMap target (loaded disk (lookup disk.state_path n.files))

  -- The target has a record in memory and in the state file.
  abbrev pub HasRecord : Node W → Type 0
  HasRecord n = InMap target n.records × InFile n

  -- A restart finds it.
  pub new_registry-HasRecord : (n : Node W) → HasRecord n → HasRecord (new_registry disk n)
  unfolding new_registry
  new_registry-HasRecord n (has, in_file) = (in_file, in_file)

module _ {W : Type 0} (disk : Disk W) (target : Str)
    (codec : (m : Map Mount) (bytes : Bytes)
      → disk.marshal m ≡ some bytes
      → InMap target m
      → (read : Map Mount) × (disk.unmarshal bytes ≡ some (some read)) × InMap target read) where
  -- A call that succeeded has written what is in memory.
  saved-InFile :
      (n : Node W) (r : Option Fault × Node W)
      → Persists disk n r
      → InMap target n.records
      → r.0 ≡ none
      → InFile disk target r.1
  saved-InFile n (none, t) ((bytes, e, stored), kept) has fine =
      let (read, decoded, found) = codec n.records bytes e has in rw (stored, decoded) found
  saved-InFile n (some x, t) p has fine = ground arith

  saved_keeps :
      (n : Node W) (r : Option Fault × Node W)
      → Persists disk n r
      → HasRecord disk target n
      → HasRecord disk target r.1
  saved_keeps n (none, t) (saves, kept) (has, in_file) =
      (rw kept.1 has, saved-InFile n (none, t) (saves, kept) has refl)
  saved_keeps n (some x, t) (same, kept) (has, in_file) = (rw kept.1 has, rw same in_file)

  pub persist-HasRecord :
      (n : Node W) → HasRecord disk target n → HasRecord disk target (persist disk n).1
  persist-HasRecord n = saved_keeps n (persist disk n) (persist-Persists disk n)

  module _ (kernel : Kernel W) where
    -- A `Put` that succeeds leaves a record of its target.
    pub put_same-HasRecord :
        (p : ℕ) (m : Mount) (n : Node W)
        → ((t : Node W) → InMap target t.records → InMap target (kernel.others t).records)
        → (put disk kernel target p m n).0 ≡ none
        → HasRecord disk target (put disk kernel target p m n).1
    unfolding put insert
    put_same-HasRecord p m n alone fine =
        let t : Node W = record n {
          live = insert target p n.live;
          records = insert target m n.records;
        } in
        let u = kernel.others t in
        let saved = persist-Persists disk u in
        let has = alone t (rw (lookup-insert_same target m n.records) refl) in
        (rw saved.1.1 has, saved-InFile u (persist disk u) saved has fine)

    module _ (stable : IsStable kernel (HasRecord disk target)) where
      -- A `Put` of any target keeps it.
      pub put-HasRecord :
          (k : Str) (p : ℕ) (m : Mount) (n : Node W)
          → HasRecord disk target n
          → HasRecord disk target (put disk kernel k p m n).1
      unfolding put
      put-HasRecord k p m n (has, in_file) =
          let t : Node W = record n { live = insert k p n.live; records = insert k m n.records } in
          persist-HasRecord (kernel.others t)
            (stable.others t (InMap-insert target k m n.records has, in_file))

      -- A `Delete` of another target keeps it, whatever fails.
      pub remove-HasRecord :
          (k : Str) (n : Node W)
          → str_eq k target ≡ false
          → HasRecord disk target n
          → HasRecord disk target (remove disk kernel k n).1
      unfolding remove
      remove-HasRecord k n other (has, in_file) =
          let t = forget disk kernel k n in
          torn_down_keeps disk kernel (HasRecord disk target) stable persist-HasRecord
            (lookup k n.live) (is_some (lookup k n.records)) k (kernel.others t)
            (stable.others t (InMap-delete target k n.records other has, in_file))
