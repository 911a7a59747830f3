-- ===== src/Mounts.antt =====
-- pkg/mounts/registry.go and pkg/mounts/detach.go: which targets are mounted, and the state file.
-- A `*Live` is a number, and `lives` is what the pointers point to: the client of a mount reads its
-- token from there too. A server of a mount is a number as well. System calls are parameters.
pub mod Persistence
pub mod Stability
pub mod Closing
pub mod Removal
pub mod Recorded
use roommate_csi.Prelude.{
  ℕ, ◌==◌, not, Bool, true, false, ◌||◌, Option, none, some, is_some, [], ◌∷◌, ◌++◌, if◌then◌else◌,
}
use roommate_csi.Prelude.Bytes.{Bytes, Str, str}
use roommate_csi.Map.{Map, lookup, insert, delete}

pub record Mount : Type 0 where
  pub target_path : Str
  pub object_kind : Str
  pub object_name : Str
  pub namespace : Str

pub record Live : Type 0 where
  pub cancel : Option ℕ
  pub unmount : Option ℕ
  pub token : Option Str

-- An error of this package, by the call that failed.
pub data Fault : Type 0 where
  marshal_failed mkdir_failed write_failed rename_failed : Fault
  unmount_failed stat_failed detach_failed read_failed : Fault

-- How a write of a file went: it is complete, or an error left this content, or no file.
pub data Written : Type 0 where
  whole : Written
  torn : Option Bytes → Written

-- What `os.Lstat` says: a device number where `Sys` has one, or the kind of error.
pub data Stat : Type 0 where
  device : Option ℕ → Stat
  not_exist not_connected stat_error : Stat

pub record Node (W : Type 0) : Type 0 where
  pub live : Map ℕ
  pub records : Map Mount
  pub lives : ℕ → Live
  pub next_live : ℕ
  pub files : Map Bytes
  pub publish_attempts : ℕ
  pub world : W

-- The state file: its path, its encoding, and the system calls that touch it. These run under the
-- mutex of the registry, so they change nothing else.
pub record Disk (W : Type 0) : Type 0 where
  pub state_path : Str
  pub parent : Str → Str
  pub marshal : Map Mount → Option Bytes
  pub unmarshal : Bytes → Option (Option (Map Mount))
  pub mkdir_all : Str → W → Bool × W
  pub write_file : Bytes → W → Written × W
  pub rename_file : W → Bool × W
  pub remove_file : W → Bool × W

-- The mounts of the host. Other goroutines may do anything while such a call is under way, and
-- wherever the code leaves the mutex (`others`).
pub record Kernel (W : Type 0) : Type 0 where
  pub cancel_watch : ℕ → Node W → Node W
  pub unmount_server : ℕ → Node W → Bool × Node W
  pub lstat : Str → Node W → Stat × Node W
  pub umount_detach : Str → Node W → Bool × Node W
  pub fusermount : Str → Node W → Bool × Node W
  pub others : Node W → Node W

abbrev pub tmp_path : Str → Str
tmp_path path = path ++ str ".tmp"

-- The file that a failed write leaves.
abbrev pub left_file : Str → Option Bytes → Map Bytes → Map Bytes
left_file path none files = files
left_file path (some bytes) files = insert path bytes files

module _ {W : Type 0} (disk : Disk W) where
  abbrev pub settle : Bytes → Written → Node W → Option Fault × Node W
  settle bytes whole n =
      let (moved, w) = disk.rename_file n.world in
      let tmp = tmp_path disk.state_path in
      if moved
      then (none, record n { files = insert disk.state_path bytes (delete tmp n.files); world = w })
      else (some rename_failed, record n { files = insert tmp bytes n.files; world = w })
  settle bytes (torn left) n =
      let (removed, w) = disk.remove_file n.world in
      let tmp = tmp_path disk.state_path in
      let files = if removed then delete tmp n.files else left_file tmp left n.files in
      (some write_failed, record n { files = files; world = w })

  abbrev pub stage : Bytes → Bool → Node W → Option Fault × Node W
  stage bytes false n = (some mkdir_failed, n)
  stage bytes true n =
      let (written, w) = disk.write_file bytes n.world in
      settle bytes written (record n { world = w })

  abbrev pub save : Option Bytes → Node W → Option Fault × Node W
  save none n = (some marshal_failed, n)
  save (some bytes) n =
      let (made, w) = disk.mkdir_all (disk.parent disk.state_path) n.world in
      stage bytes made (record n { world = w })

  unfoldable pub persist : Node W → Option Fault × Node W
  unfolding insert delete
  persist n = save (disk.marshal n.records) n

  abbrev pub parsed : Option (Option (Map Mount)) → Map Mount
  parsed none = []
  parsed (some none) = []
  parsed (some (some records)) = records

  abbrev pub loaded : Option Bytes → Map Mount
  loaded none = []
  loaded (some bytes) = parsed (disk.unmarshal bytes)

  -- What `NewRegistry` makes of a state file that it can read, or that is not there.
  unfoldable pub new_registry : Node W → Node W
  new_registry n = record n { live = []; records = loaded (lookup disk.state_path n.files) }

unfoldable pub get_live : {W : Type 0} → Str → Node W → Option ℕ
get_live target n = lookup target n.live

unfoldable pub was_published : {W : Type 0} → Str → Node W → Bool
was_published target n = is_some (lookup target n.live) || is_some (lookup target n.records)

-- `isMountpoint` after the two calls of Lstat.
abbrev pub on_other_device : Option ℕ → Option ℕ → Bool
on_other_device (some dev) (some parent_dev) = not (dev == parent_dev)
on_other_device none parent_dev = false
on_other_device (some dev) none = false

abbrev pub compared : Option ℕ → Stat → Option Bool
compared dev (device parent_dev) = some (on_other_device dev parent_dev)
compared dev not_exist = none
compared dev not_connected = none
compared dev stat_error = none

module _ {W : Type 0} (disk : Disk W) (kernel : Kernel W) where
  abbrev pub classified : Str → Stat → Node W → Option Bool × Node W
  classified target not_exist n = (some false, n)
  classified target not_connected n = (some true, n)
  classified target stat_error n = (none, n)
  classified target (device dev) n =
      let (r, n') = kernel.lstat (disk.parent target) n in (compared dev r, n')

  -- The result is `none` where the code returns an error.
  unfoldable pub is_mountpoint : Str → Node W → Option Bool × Node W
  is_mountpoint target n = let (r, n') = kernel.lstat target n in classified target r n'

  abbrev pub detach : Str → Option Bool → Node W → Option Fault × Node W
  detach target none n = (some stat_failed, n)
  detach target (some false) n = (none, n)
  detach target (some true) n =
      let (fine, n') = kernel.umount_detach target n in
      let (forced, n'') = kernel.fusermount target n' in
      if fine then (none, n') else if forced then (none, n'') else (some detach_failed, n'')

  unfoldable pub detach_stale : Str → Node W → Option Fault × Node W
  unfolding is_mountpoint
  detach_stale target n = let (mounted, n') = is_mountpoint target n in detach target mounted n'

  unfoldable pub put : Str → ℕ → Mount → Node W → Option Fault × Node W
  unfolding insert persist
  put target p m n = persist disk (
      kernel.others
        (record n { live = insert target p n.live; records = insert target m n.records }))

  abbrev pub cancelled : Option ℕ → Node W → Node W
  cancelled none n = n
  cancelled (some server) n = kernel.cancel_watch server n

  abbrev pub unmounted : Option ℕ → Node W → Bool × Node W
  unmounted none n = (true, n)
  unmounted (some server) n = kernel.unmount_server server n

  -- Cancels the watch loop of a live mount, and unmounts its server.
  abbrev pub stop : ℕ → Node W → Bool × Node W
  stop p n = let n' = cancelled (n.lives p).cancel n in unmounted (n'.lives p).unmount n'

  -- Persists in any case; an earlier error is the one that is returned.
  abbrev pub finish : Option Fault → Node W → Option Fault × Node W
  finish none n = persist disk n
  finish (some e) n = (some e, (persist disk n).1)

  abbrev pub torn_down : Option ℕ → Bool → Str → Node W → Option Fault × Node W
  torn_down (some p) had_record target n =
      let (fine, n') = stop p n in finish (if fine then none else some unmount_failed) n'
  torn_down none true target n =
      let (e, n') = detach_stale target n in
      finish (if is_some e then some detach_failed else none) n'
  torn_down none false target n = finish none n

  -- Forgets the target in memory.
  abbrev pub forget : Str → Node W → Node W
  forget target n = record n { live = delete target n.live; records = delete target n.records }

  unfoldable pub remove : Str → Node W → Option Fault × Node W
  unfolding delete detach_stale persist
  remove target n =
      torn_down (lookup target n.live) (is_some (lookup target n.records)) target
        (kernel.others (forget target n))

  abbrev pub stop_all : Map ℕ → Node W → Node W
  stop_all [] n = n
  stop_all ((target, p) ∷ rest) n = stop_all rest (stop p n).1

  -- A failure to unmount is logged.
  unfoldable pub shutdown : Node W → Node W
  shutdown n = stop_all n.live (kernel.others n)
