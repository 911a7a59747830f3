-- ===== src/Mounts/Stability.antt =====
-- What the operations of pkg/mounts keep, if the calls that they make keep it.
use roommate_csi.Prelude.{ℕ, Bool, true, false, Option, none, some, [], ◌∷◌, Bool-cases, inl, inr}
use roommate_csi.Prelude.Bytes.{Str}
use roommate_csi.Mounts.{
  Node, Disk, Kernel, Stat, device, not_exist, not_connected, stat_error, Fault, classified,
  is_mountpoint, detach, detach_stale, cancelled, unmounted, stop, stop_all, finish, torn_down,
  persist, shutdown,
}
use roommate_csi.Map.{Map}

-- What other goroutines do while such a call is under way keeps `P`.
pub record IsStable {W : Type 0} (kernel : Kernel W) (P : Node W → Type 0) : Type 0 where
  pub others : (n : Node W) → P n → P (kernel.others n)
  pub cancel_watch : (i : ℕ) (n : Node W) → P n → P (kernel.cancel_watch i n)
  pub unmount_server : (i : ℕ) (n : Node W) → P n → P (kernel.unmount_server i n).1
  pub lstat : (path : Str) (n : Node W) → P n → P (kernel.lstat path n).1
  pub umount_detach : (path : Str) (n : Node W) → P n → P (kernel.umount_detach path n).1
  pub fusermount : (path : Str) (n : Node W) → P n → P (kernel.fusermount path n).1

module _ {W : Type 0} (disk : Disk W) (kernel : Kernel W) (P : Node W → Type 0)
    (stable : IsStable kernel P) where
  pub cancelled_keeps : (o : Option ℕ) (n : Node W) → P n → P (cancelled disk kernel o n)
  cancelled_keeps none n kept = kept
  cancelled_keeps (some i) n kept = stable.cancel_watch i n kept

  unmounted_keeps : (o : Option ℕ) (n : Node W) → P n → P (unmounted disk kernel o n).1
  unmounted_keeps none n kept = kept
  unmounted_keeps (some i) n kept = stable.unmount_server i n kept

  pub stop_keeps : (p : ℕ) (n : Node W) → P n → P (stop disk kernel p n).1
  stop_keeps p n kept =
      let n' = cancelled disk kernel (n.lives p).cancel n in
      unmounted_keeps (n'.lives p).unmount n' (cancelled_keeps (n.lives p).cancel n kept)

  classified_keeps :
      (target : Str) (r : Stat) (n : Node W) → P n → P (classified disk kernel target r n).1
  classified_keeps target (device dev) n kept = stable.lstat (disk.parent target) n kept
  classified_keeps target not_exist n kept = kept
  classified_keeps target not_connected n kept = kept
  classified_keeps target stat_error n kept = kept

  detach_keeps :
      (target : Str) (mounted : Option Bool) (n : Node W)
      → P n
      → P (detach disk kernel target mounted n).1
  detach_keeps target none n kept = kept
  detach_keeps target (some false) n kept = kept
  detach_keeps target (some true) n kept =
      let once = stable.umount_detach target n kept in
      let twice = stable.fusermount target (kernel.umount_detach target n).1 once in
      elim (Bool-cases (kernel.umount_detach target n).0) [
        | inl fine ↦ rw fine once
        | inr stuck ↦
            elim (Bool-cases (kernel.fusermount target (kernel.umount_detach target n).1).0) [
              | inl forced ↦ rw (stuck, forced) twice
              | inr failed ↦ rw (stuck, failed) twice
            ]
      ]

  pub detach_stale_keeps :
      (target : Str) (n : Node W) → P n → P (detach_stale disk kernel target n).1
  unfolding detach_stale is_mountpoint
  detach_stale_keeps target n kept =
      let r = kernel.lstat target n in
      let m = classified disk kernel target r.0 r.1 in
      detach_keeps target m.0 m.1 (classified_keeps target r.0 r.1 (stable.lstat target n kept))

  pub stop_all_keeps : (live : Map ℕ) (n : Node W) → P n → P (stop_all disk kernel live n)
  stop_all_keeps [] n kept = kept
  stop_all_keeps ((target, p) ∷ rest) n kept =
      stop_all_keeps rest (stop disk kernel p n).1 (stop_keeps p n kept)

  pub shutdown_keeps : (n : Node W) → P n → P (shutdown disk kernel n)
  unfolding shutdown
  shutdown_keeps n kept = stop_all_keeps n.live (kernel.others n) (stable.others n kept)

  module _ (saved : (n : Node W) → P n → P (persist disk n).1) where
    finish_keeps : (e : Option Fault) (n : Node W) → P n → P (finish disk kernel e n).1
    finish_keeps none n kept = saved n kept
    finish_keeps (some e) n kept = saved n kept

    pub torn_down_keeps :
        (p : Option ℕ) (had_record : Bool) (target : Str) (n : Node W)
        → P n
        → P (torn_down disk kernel p had_record target n).1
    torn_down_keeps (some p) had_record target n kept =
        finish_keeps _ (stop disk kernel p n).1 (stop_keeps p n kept)
    torn_down_keeps none true target n kept =
        finish_keeps _ (detach_stale disk kernel target n).1 (detach_stale_keeps target n kept)
    torn_down_keeps none false target n kept = finish_keeps none n kept
