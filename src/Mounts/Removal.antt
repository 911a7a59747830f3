-- ===== src/Mounts/Removal.antt =====
-- `Delete` of pkg/mounts/registry.go: a target is forgotten, in memory whatever fails, and in the
-- state file if nothing does.
use roommate_csi.Prelude.{ℕ, ◌≡◌, ◌∙◌, ap, Bool, true, false, Option, none, some, is_some, arith}
use roommate_csi.Prelude.Bytes.{Bytes, Str}
use roommate_csi.Map.{Map, lookup}
use roommate_csi.Map.Laws.{lookup-delete_same}
use roommate_csi.Mounts.{
  Node, Mount, Disk, Kernel, Fault, loaded, forget, persist, remove, finish, torn_down, stop,
  detach_stale,
}
use roommate_csi.Mounts.Stability.{IsStable, torn_down_keeps, stop_keeps, detach_stale_keeps}
use roommate_csi.Mounts.Persistence.{Persists, persist-Persists}

abbrev pub IsForgotten : {W : Type 0} → Str → Node W → Type 0
IsForgotten target n = (lookup target n.live ≡ none) × (lookup target n.records ≡ none)

-- A restart finds no record of the target.
abbrev pub IsGone : {W : Type 0} → Disk W → Str → Node W → Type 0
IsGone disk target n = lookup target (loaded disk (lookup disk.state_path n.files)) ≡ none

-- Nobody publishes the target again while a call of its removal is under way.
abbrev pub IsQuiet : {W : Type 0} → Disk W → Kernel W → Str → Type 0
IsQuiet disk kernel target = IsStable kernel (IsForgotten target)

persist-IsForgotten :
    {W : Type 0} (disk : Disk W) (target : Str) (n : Node W)
    → IsForgotten target n
    → IsForgotten target (persist disk n).1
persist-IsForgotten disk target n gone =
    let kept = (persist-Persists disk n).1 in
    (ap (lookup target) kept.0 ∙ gone.0, ap (lookup target) kept.1 ∙ gone.1)

module _ {W : Type 0} (disk : Disk W) (kernel : Kernel W) (target : Str)
    (quiet : IsQuiet disk kernel target) where
  -- Suppose that nobody publishes the target again while it is removed. Then `Delete` leaves it with
  -- neither a live mount nor a record, also if the server cannot be unmounted, the stale mount cannot
  -- be detached, or the state file cannot be written.
  pub remove-IsForgotten : (n : Node W) → IsForgotten target (remove disk kernel target n).1
  unfolding remove
  remove-IsForgotten n =
      torn_down_keeps disk kernel (IsForgotten target) quiet (persist-IsForgotten disk target)
        (lookup target n.live) (is_some (lookup target n.records)) target
        (kernel.others (forget disk kernel target n))
        (quiet.others (forget disk kernel target n)
          (lookup-delete_same target n.live, lookup-delete_same target n.records))

  module _
      (codec : (m : Map Mount) (bytes : Bytes)
        → disk.marshal m ≡ some bytes
        → lookup target m ≡ none
        → (read : Map Mount) × (disk.unmarshal bytes ≡ some (some read))
          × (lookup target read ≡ none)) where
    saved-IsGone :
        (n : Node W) (r : Option Fault × Node W)
        → Persists disk n r
        → IsForgotten target n
        → r.0 ≡ none
        → IsGone disk target r.1
    saved-IsGone n (none, t) ((bytes, e, stored), kept) gone fine =
        let (read, decoded, absent) = codec n.records bytes e gone.1 in rw (stored, decoded) absent
    saved-IsGone n (some x, t) p gone fine = absurd (ground arith)

    finish-IsGone :
        (e : Option Fault) (n : Node W)
        → IsForgotten target n
        → (finish disk kernel e n).0 ≡ none
        → IsGone disk target (finish disk kernel e n).1
    finish-IsGone none n gone fine =
        saved-IsGone n (persist disk n) (persist-Persists disk n) gone fine
    finish-IsGone (some x) n gone fine = absurd (ground arith)

    torn_down-IsGone :
        (p : Option ℕ) (had_record : Bool) (n : Node W)
        → IsForgotten target n
        → (torn_down disk kernel p had_record target n).0 ≡ none
        → IsGone disk target (torn_down disk kernel p had_record target n).1
    torn_down-IsGone (some p) had_record n gone =
        finish-IsGone _ (stop disk kernel p n).1
          (stop_keeps disk kernel (IsForgotten target) quiet p n gone)
    torn_down-IsGone none true n gone =
        finish-IsGone _ (detach_stale disk kernel target n).1
          (detach_stale_keeps disk kernel (IsForgotten target) quiet target n gone)
    torn_down-IsGone none false n gone = finish-IsGone none n gone

    -- If `Delete` succeeds, a restart finds no record of the target either, if records that are
    -- encoded without one of the target can be decoded, to records without one.
    pub remove-IsGone :
        (n : Node W)
        → (remove disk kernel target n).0 ≡ none
        → IsGone disk target (remove disk kernel target n).1
    unfolding remove
    remove-IsGone n =
        torn_down-IsGone (lookup target n.live) (is_some (lookup target n.records))
          (kernel.others (forget disk kernel target n))
          (quiet.others (forget disk kernel target n)
            (lookup-delete_same target n.live, lookup-delete_same target n.records))
