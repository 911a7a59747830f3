-- ===== src/Mounts/Persistence.antt =====
-- `persist`, `Put` and `NewRegistry` of pkg/mounts/registry.go: what a restart finds.
use roommate_csi.Prelude.{
  ◌≡◌, refl, ◌∙◌, ap, true, false, Option, none, some, arith, length, length-append, Bool-cases,
  inl, inr, Bool,
}
use roommate_csi.Prelude.Bytes.{Bytes, Str, str, str_eq, str_eq_iff}
use roommate_csi.Map.{Map, lookup, delete}
use roommate_csi.Map.Laws.{lookup-insert, lookup-delete, lookup-insert_same}
use roommate_csi.Mounts.{
  Node, Disk, Fault, Written, whole, torn, tmp_path, settle, stage, save, left_file, persist,
}

tmp_path_other : (path : Str) → str_eq (tmp_path path) path ≡ false
tmp_path_other path = elim (Bool-cases (str_eq (tmp_path path) path)) [
  | inl same ↦ absurd (
      omega (
        arith,
        length-append path (str ".tmp"),
        ap length ((str_eq_iff (tmp_path path) path).0 same),
      ))
  | inr other ↦ other
]

-- The state file after a call that returned `e`: the old one if it failed, else the records of `n`.
abbrev pub Saves : {W : Type 0} → Disk W → Node W → Option Fault × Node W → Type 0
Saves disk n (none, t) =
    (bytes : Bytes) × (disk.marshal n.records ≡ some bytes)
    × (lookup disk.state_path t.files ≡ some bytes)
Saves disk n (some e, t) = lookup disk.state_path t.files ≡ lookup disk.state_path n.files

module _ {W : Type 0} (disk : Disk W) where
  lookup-left_file :
      (left : Option Bytes) (files : Map Bytes)
      → lookup disk.state_path (left_file (tmp_path disk.state_path) left files)
        ≡ lookup disk.state_path files
  lookup-left_file none files = refl
  lookup-left_file (some bytes) files =
      lookup-insert disk.state_path (tmp_path disk.state_path) bytes files
      ∙ rw (tmp_path_other disk.state_path) refl

  -- What a call leaves of the registry in memory.
  abbrev pub Keeps : Node W → Option Fault × Node W → Type 0
  Keeps n (e, t) = (t.live ≡ n.live) × (t.records ≡ n.records)

  abbrev pub Persists : Node W → Option Fault × Node W → Type 0
  Persists n r = Saves disk n r × Keeps n r

  settle-Persists :
      (bytes : Bytes) (r : Written) (n : Node W)
      → disk.marshal n.records ≡ some bytes
      → Persists n (settle disk bytes r n)
  settle-Persists bytes whole n e = elim (Bool-cases (disk.rename_file n.world).0) [
    | inl moved ↦ rw moved (
      (
        bytes,
        e,
        lookup-insert_same disk.state_path bytes (delete (tmp_path disk.state_path) n.files),
      ),
      (refl, refl),
    )
    | inr kept ↦ rw kept (lookup-left_file (some bytes) n.files, (refl, refl))
  ]
  settle-Persists bytes (torn left) n e = elim (Bool-cases (disk.remove_file n.world).0) [
    | inl removed ↦ rw removed (
      lookup-delete disk.state_path (tmp_path disk.state_path) n.files
          ∙ rw (tmp_path_other disk.state_path) refl,
      (refl, refl),
    )
    | inr kept ↦ rw kept (lookup-left_file left n.files, (refl, refl))
  ]

  stage-Persists :
      (bytes : Bytes) (made : Bool) (n : Node W)
      → disk.marshal n.records ≡ some bytes
      → Persists n (stage disk bytes made n)
  stage-Persists bytes false n e = (refl, (refl, refl))
  stage-Persists bytes true n e =
      settle-Persists bytes (disk.write_file bytes n.world).0
        (record n { world = (disk.write_file bytes n.world).1 }) e

  save-Persists :
      (o : Option Bytes) (n : Node W) → disk.marshal n.records ≡ o → Persists n (save disk o n)
  save-Persists none n e = (refl, (refl, refl))
  save-Persists (some bytes) n e =
      let called = disk.mkdir_all (disk.parent disk.state_path) n.world in
      stage-Persists bytes called.0 (record n { world = called.1 }) e

  -- A call that succeeds leaves the encoded records in the state file; one that fails, at whichever
  -- step and however much of the temporary file was written, leaves the state file as it was. The
  -- registry in memory is the same either way.
  pub persist-Persists : (n : Node W) → Persists n (persist disk n)
  unfolding persist
  persist-Persists n = save-Persists (disk.marshal n.records) n refl
