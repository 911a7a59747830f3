-- ===== src/Program/Stopping.antt =====
-- What a signal does in cmd/node/main.go.
use roommate_csi.Prelude.{ℕ, ◌≡◌, ◌∙◌, ap, sym, subst, if-false, Bool, false, some, List, []}
use roommate_csi.Prelude.Bytes.{Str, str_eq}
use roommate_csi.Mounts.{Node, Disk, Kernel, get_live, new_registry}
use roommate_csi.Mounts.Stability.{IsStable}
use roommate_csi.Mounts.Closing.{shutdown-asks}
use roommate_csi.Driver.{Calls}
use roommate_csi.Driver.Service.{Identity, Call, Net, Served, Session, interrupted, serve}
use roommate_csi.Program.{Flags, disk_at, opened, selected, main}

abbrev pub signalled : List Call → Session
signalled incoming = record { incoming = incoming; ending = interrupted }

module _ {W : Type 0} (disk : Disk W) (kernel : Kernel W) (calls : Calls W) (net : Net W)
    (read_fails : Str → W → Bool × W) (version : Str) (flags : Flags) where
  -- What has been served when the process ends, in a process that starts.
  abbrev pub served_until : Session → Node W → Served × Node W
  served_until session n =
      let d = disk_at disk kernel calls net read_fails version flags.state_path in
      let w = (read_fails flags.state_path n.world).1 in
      let loaded : Node W = new_registry d (record n { world = w }) in
      let id : Identity = record {
        name = flags.driver_name;
        version = version;
        node_id = flags.node_id;
      } in
      serve d kernel calls net flags.endpoint id session (record loaded { publish_attempts = 0 })

  main_starts :
      (session : Session) (n : Node W)
      → str_eq flags.node_id [] ≡ false
      → (read_fails flags.state_path n.world).0 ≡ false
      → main disk kernel calls net read_fails version flags session n
        ≡ selected disk kernel calls net read_fails version flags.state_path session.ending
            (served_until session n).0
            (served_until session n).1
  unfolding main
  main_starts session n named opens =
      if-false _ _ _ named
      ∙ ap
          (λ (r : Bool × Node W).
            opened disk kernel calls net read_fails version flags session r.0 r.1)
          (if-false _ _ _ opens)

  -- A process that has a node's name and can read the state file, and takes a signal, ends with status
  -- 0 after every server of a live mount in its registry has been asked to unmount, also if the ones
  -- before it fail. This holds for any notion of having been asked to that the server's unmount
  -- establishes and no call takes back, if nobody else takes the server from the live mount meanwhile.
  pub signal_unmounts :
      (incoming : List Call) (n : Node W)
      → str_eq flags.node_id [] ≡ false
      → (read_fails flags.state_path n.world).0 ≡ false
      → (server p : ℕ) (Asked : Node W → Type 0)
      → ((t : Node W) → Asked (kernel.unmount_server server t).1)
      → IsStable kernel Asked
      → IsStable kernel (λ t. (t.lives p).unmount ≡ some server)
      → (target : Str) → get_live target (served_until (signalled incoming) n).1 ≡ some p
      → ((served_until (signalled incoming) n).1.lives p).unmount ≡ some server
      → ((main disk kernel calls net read_fails version flags (signalled incoming) n).0.status
          ≡ some 0)
        × Asked (main disk kernel calls net read_fails version flags (signalled incoming) n).1
  signal_unmounts incoming n named opens server p Asked asks kept served target found mounted =
      let d = disk_at disk kernel calls net read_fails version flags.state_path in
      let runs = main_starts (signalled incoming) n named opens in
      (
        ap (λ r. r.0.status) runs,
        subst (λ r. Asked r.1) (sym runs)
            (shutdown-asks d kernel server Asked asks kept p served target
              (served_until (signalled incoming) n).1 found mounted),
      )
