-- ===== src/Mounting.antt =====
-- pkg/objectfs/mount.go: how a volume is mounted. go-fuse is a parameter.
use Prim.Native.Nat.{bit_and}
use roommate_csi.Prelude.{ℕ, ◌==◌, Bool, true, Option, none, some}
use roommate_csi.Prelude.Bytes.{Str, str}
use roommate_csi.Volume.{Config}

pub record MountOptions : Type 0 where
  pub allow_other : Bool
  pub fs_name : Str
  pub name : Str
  pub enable_locks : Bool
  pub extra_capabilities : ℕ
  pub direct_mount : Bool

-- go-fuse over the state `S` of the host: a mount gives a server, or an error. `kernel_flags` are the
-- capabilities that the kernel granted to it, and `cap_atomic_o_trunc` is CAP_ATOMIC_O_TRUNC.
pub record Fuse (S : Type 0) : Type 0 where
  pub cap_atomic_o_trunc : ℕ
  pub mount : Str → MountOptions → S → Option ℕ × S
  pub kernel_flags : ℕ → ℕ

module _ {S : Type 0} (fuse : Fuse S) where
  unfoldable pub mount_options : Config → MountOptions
  mount_options cfg = record {
    allow_other = true;
    fs_name = cfg.object_name;
    name = str "roommate";
    enable_locks = true;
    extra_capabilities = fuse.cap_atomic_o_trunc;
    direct_mount = true;
  }

  -- Whether the warning is logged.
  unfoldable pub check_atomic_o_trunc : ℕ → Bool
  check_atomic_o_trunc server = bit_and (fuse.kernel_flags server) fuse.cap_atomic_o_trunc == 0

  abbrev pub with_warning : Option ℕ → Option (ℕ × Bool)
  with_warning none = none
  with_warning (some server) = some (server, check_atomic_o_trunc server)

  -- The server, and whether the warning is logged.
  unfoldable pub mount : Str → Config → S → Option (ℕ × Bool) × S
  unfolding mount_options check_atomic_o_trunc
  mount dir cfg s =
      let (server, s') = fuse.mount dir (mount_options cfg) s in (with_warning server, s')
