-- ===== src/Program.antt =====
-- cmd/node/main.go: the life of one process of the plugin. The log is not modelled, but for its level.
pub mod Survival
pub mod Stopping
use roommate_csi.Prelude.{ℕ, Bool, true, false, Option, none, some, List, [], ◌∷◌, if◌then◌else◌}
use roommate_csi.Prelude.Bytes.{Str, str_eq}
use roommate_csi.Prelude.Int.{ℤ, pos}
use roommate_csi.Mounts.{Node, Disk, Kernel, new_registry, shutdown}
use roommate_csi.Driver.{Calls}
use roommate_csi.Driver.Service.{
  Identity, Reply, Net, Served, ServeFault, Session, Ending, closed, interrupted, killed, serve,
}

pub record Flags : Type 0 where
  pub endpoint : Str
  pub driver_name : Str
  pub node_id : Str
  pub state_path : Str
  pub log_level : Str

-- `slog.LevelInfo`, and `newLogger` of a level that slog may be able to read.
abbrev pub level_info : ℤ
level_info = pos 0

abbrev pub new_logger : (Str → Option ℤ) → Str → ℤ
new_logger unmarshal_text level = go (unmarshal_text level)
  where
    go : Option ℤ → ℤ
    go none = level_info
    go (some l) = l

-- What the process says: its replies, and its status, unless it was killed.
pub record Run : Type 0 where
  pub replies : List Reply
  pub status : Option ℕ

module _ {W : Type 0} (disk : Disk W) (kernel : Kernel W) (calls : Calls W) (net : Net W)
    (read_fails : Str → W → Bool × W) (version : Str) where
  abbrev pub disk_at : Str → Disk W
  disk_at path = record disk { state_path = path }

  -- `NewRegistry`; an error other than that the file is not there is returned.
  abbrev pub open_registry : Str → Node W → Bool × Node W
  open_registry path n =
      let (fails, w) = read_fails path n.world in
      if fails
      then (false, record n { world = w })
      else (true, new_registry (disk_at path) (record n { world = w }))

  -- `NewNodeServer`
  abbrev pub new_node_server : Node W → Node W
  new_node_server n = record n { publish_attempts = 0 }

  abbrev pub serve_status : Option ServeFault → ℕ
  serve_status none = 0
  serve_status (some e) = 1

  -- The select: what has been served, and how that ended.
  abbrev pub selected : Str → Ending → Served → Node W → Run × Node W
  selected path (closed fine) served n =
      (record { replies = served.replies; status = some (serve_status served.fault) }, n)
  selected path interrupted served n =
      (record { replies = served.replies; status = some 0 }, shutdown (disk_at path) kernel n)
  selected path killed served n = (record { replies = served.replies; status = none }, n)

  abbrev pub exits : Node W → Run × Node W
  exits n = (record { replies = []; status = some 1 }, n)

  abbrev pub opened : Flags → Session → Bool → Node W → Run × Node W
  opened flags session false n = exits n
  opened flags session true n =
      let id : Identity = record {
        name = flags.driver_name;
        version = version;
        node_id = flags.node_id;
      } in
      let (served, n') =
        serve (disk_at flags.state_path) kernel calls net flags.endpoint id session
          (new_node_server n) in
      selected flags.state_path session.ending served n'

  unfoldable pub main : Flags → Session → Node W → Run × Node W
  unfolding new_registry shutdown serve
  main flags session n =
      let (fine, n') = open_registry flags.state_path n in
      if str_eq flags.node_id [] then exits n else opened flags session fine n'

  -- One process after another, on the same node: only the files outlive one.
  unfoldable pub processes : Flags → List Session → Node W → List Run × Node W
  unfolding main
  processes flags [] n = ([], n)
  processes flags (session ∷ later) n =
      let (run, n') = main flags session n in
      let (runs, n'') = processes flags later n' in (run ∷ runs, n'')
