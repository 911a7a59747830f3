-- ===== src/Tests/DriverRuns/Processes.antt =====
-- Processes of the plugin on the node, and the theorems on them there.
use roommate_csi.Prelude.{◌≡◌, refl, Bool, true, false, some, List, [], ◌∷◌, ◌⊎◌}
use roommate_csi.Prelude.Bytes.{Str, str, str_eq}
use roommate_csi.Map.{lookup, insert}
use roommate_csi.Map.Laws.{lookup-insert_same}
use roommate_csi.Volume.{parse_mode, parse_uint32, parse_seconds}
use roommate_csi.Mounts.{Node, Disk, Kernel, get_live, new_registry}
use roommate_csi.Mounts.Recorded.{HasRecord}
use roommate_csi.Mounts.Stability.{IsStable}
use roommate_csi.Driver.{publish}
use roommate_csi.Driver.Tracking.{IsUndisturbed}
use roommate_csi.Driver.Service.{
  Identity, Call, Net, Session, probe, publish_volume, absent, answer_all, serve, interrupted,
  killed, Reply, empty_response,
}
use roommate_csi.Driver.Service.Answering.{IsUntouched, refusals}
use roommate_csi.Driver.Service.Endpoint.{IsServed, IsRefused, serve_endpoint}
use roommate_csi.Driver.Service.Renewing.{published, republishes_renew}
use roommate_csi.Program.{Flags, main, processes}
use roommate_csi.Program.Survival.{state_disk, total_refusals, published_survives}
use roommate_csi.Program.Stopping.{signalled, signal_unmounts}
use roommate_csi.Tests.DriverRuns.{
  disk, codec, kernel, calls, target, context, request, empty_node, mounted_node,
}

abbrev flags : Flags
flags = record {
  endpoint = str "unix:///csi.sock";
  driver_name = str "roommate.csi";
  node_id = str "n1";
  state_path = str "/var/lib/state.json";
  log_level = str "info";
}

abbrev net : Net Bool
net = record { remove_socket = λ path n. (absent, n); listen = λ path n. (true, n) }

abbrev read_fails : Str → Bool → Bool × Bool
read_fails path w = (false, w)

abbrev version : Str
version = str "dev"

abbrev id : Identity
id = record { name = flags.driver_name; version = version; node_id = flags.node_id }

abbrev files : Disk Bool
files = state_disk disk kernel calls net read_fails version flags target (codec target)

undisturbed : IsUndisturbed kernel calls (HasRecord files target)
undisturbed = record {
  kernel_calls = record {
    others = λ n kept. kept;
    cancel_watch = λ i n kept. kept;
    unmount_server = λ i n kept. kept;
    lstat = λ path n kept. kept;
    umount_detach = λ path n kept. kept;
    fusermount = λ path n kept. kept;
  };
  client_for = λ p n kept. kept;
  read_object = λ p cfg n kept. kept;
  make_target = λ path mode n kept. kept;
  start_watch = λ cfg n kept. kept;
  mount_fuse = λ path cfg n kept. kept;
  remove_target = λ path n kept. kept;
  wait_for = λ path n kept. kept;
}

untouched : IsUntouched files net target
untouched = record { remove_socket = λ path n kept. kept; listen = λ path n kept. kept }

abbrev republish : List Call
republish = probe ∷ publish_volume request ∷ []

-- One process takes a signal, and the next one is killed.
abbrev sessions : List Session
sessions =
    record { incoming = republish; ending = interrupted }
    ∷ record { incoming = republish; ending = killed }
    ∷ []

abbrev served : List Reply × Node Bool
served =
    answer_all files kernel calls net id republish
      (publish files kernel calls target context (empty_node true)).1

published_survives_example :
    (refusals target republish served.0 ≡ 0)
    × (total_refusals target sessions
          (processes disk kernel calls net read_fails version flags sessions served.1).0
        ≡ 0)
unfolding publish str_eq parse_mode parse_uint32 parse_seconds
published_survives_example =
    published_survives disk kernel calls net read_fails version flags target (codec target)
      undisturbed untouched id context (empty_node true) (λ t has. has) refl republish sessions refl
      refl

-- A host that keeps a file for a server that was asked to unmount.
abbrev mark : Str
mark = str "/asked"

abbrev marking : Kernel Bool
marking = record kernel {
  unmount_server = λ server n. (false, record n { files = insert mark [] n.files });
}

abbrev Asked : Node Bool → Type 0
Asked n = lookup mark n.files ≡ some []

marking-Asked : IsStable marking Asked
marking-Asked = record {
  others = λ n kept. kept;
  cancel_watch = λ i n kept. kept;
  unmount_server = λ i n kept. lookup-insert_same mark [] n.files;
  lstat = λ path n kept. kept;
  umount_detach = λ path n kept. kept;
  fusermount = λ path n kept. kept;
}

marking_keeps : IsStable marking (λ n. (n.lives 0).unmount ≡ some 8)
marking_keeps = record {
  others = λ n kept. kept;
  cancel_watch = λ i n kept. kept;
  unmount_server = λ i n kept. kept;
  lstat = λ path n kept. kept;
  umount_detach = λ path n kept. kept;
  fusermount = λ path n kept. kept;
}

signal_unmounts_example :
    ((main disk marking calls net read_fails version flags
        (signalled republish)
        (empty_node true)).0.status
      ≡ some 0)
    × Asked
        (main disk marking calls net read_fails version flags
          (signalled republish)
          (empty_node true)).1
unfolding serve new_registry answer_all publish str_eq parse_mode parse_uint32 parse_seconds
signal_unmounts_example =
    signal_unmounts disk marking calls net read_fails version flags republish (empty_node true) refl
      refl 8 0 Asked (λ n. lookup-insert_same mark [] n.files) marking-Asked marking_keeps target
      refl refl

serve_endpoint_example :
    IsServed disk kernel calls net flags.endpoint id (signalled republish) (empty_node true)
    ⊎ IsRefused disk kernel calls net flags.endpoint id (signalled republish) (empty_node true)
serve_endpoint_example =
    serve_endpoint disk kernel calls net flags.endpoint id (signalled republish) (empty_node true)

republishes_renew_example :
    (answer_all disk kernel calls net id (published (request ∷ request ∷ [])) mounted_node).0
    ≡ empty_response ∷ empty_response ∷ []
unfolding str_eq get_live lookup
republishes_renew_example =
    (republishes_renew disk kernel calls net id target 0 (request ∷ request ∷ []) mounted_node refl
      refl).0
