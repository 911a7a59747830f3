-- ===== src/Driver/Service.antt =====
-- What the plugin serves: pkg/driver/identity.go, the calls of pkg/driver/node.go, and `Serve` of
-- pkg/driver/server.go. The calls are answered one after another here: what others do meanwhile is up
-- to the parameters, and publishes that overlap are the subject of Driver/Serializing.
pub mod Endpoint
pub mod Answering
pub mod Renewing
use roommate_csi.Prelude.{
  ◌==◌, ◌&&◌, Bool, true, false, Option, none, some, List, [], ◌∷◌, length, drop, if◌then◌else◌,
}
use roommate_csi.Prelude.Bytes.{Str, str, str_eq}
use roommate_csi.Mounts.{Node, Disk, Kernel}
use roommate_csi.Driver.{
  Request, Calls, Code, Outcome, done, failed, node_publish_volume, node_unpublish_volume,
}

-- Of the identity server and of the node server.
pub record Identity : Type 0 where
  pub name : Str
  pub version : Str
  pub node_id : Str

pub data Call : Type 0 where
  get_plugin_info get_plugin_capabilities probe node_get_capabilities node_get_info : Call
  publish_volume unpublish_volume : Request → Call

-- The two services list no capability.
pub data Reply : Type 0 where
  plugin_info : Str → Str → Reply
  no_capabilities : Reply
  is_ready : Bool → Reply
  node_info : Str → Reply
  empty_response : Reply
  refused : Code → Reply

abbrev pub reply_of : Outcome (Unit {0}) → Reply
reply_of (done u) = empty_response
reply_of (failed c) = refused c

-- `strings.HasPrefix` and `strings.TrimPrefix`
unfoldable pub has_prefix : Str → Str → Bool
has_prefix s [] = true
has_prefix [] (p ∷ prefix) = false
has_prefix (b ∷ s) (p ∷ prefix) = b == p && has_prefix s prefix

unfoldable pub trim_prefix : Str → Str → Str
unfolding has_prefix
trim_prefix s prefix = if has_prefix s prefix then drop (length prefix) s else s

abbrev pub scheme : Str
scheme = str "unix://"

-- How the removal of a stale socket went.
pub data Removal : Type 0 where
  removed absent in_place : Removal

-- The calls of the network and of the socket's file.
pub record Net (W : Type 0) : Type 0 where
  pub remove_socket : Str → Node W → Removal × Node W
  pub listen : Str → Node W → Bool × Node W

pub data ServeFault : Type 0 where
  bad_endpoint remove_failed listen_failed accept_failed : ServeFault

-- How serving ends: `srv.Serve` returns, without an error or with one; the process takes a signal; or
-- it is killed.
pub data Ending : Type 0 where
  closed : Bool → Ending
  interrupted killed : Ending

abbrev pub ending_fault : Ending → Option ServeFault
ending_fault (closed true) = none
ending_fault (closed false) = some accept_failed
ending_fault interrupted = none
ending_fault killed = none

-- What kubelet calls until the end, in this order.
pub record Session : Type 0 where
  pub incoming : List Call
  pub ending : Ending

-- The replies so far, and the error that `Serve` returned.
pub record Served : Type 0 where
  pub replies : List Reply
  pub fault : Option ServeFault

module _ {W : Type 0} (disk : Disk W) (kernel : Kernel W) (calls : Calls W) (net : Net W) where
  abbrev pub answer : Identity → Call → Node W → Reply × Node W
  answer id get_plugin_info n = (plugin_info id.name id.version, n)
  answer id get_plugin_capabilities n = (no_capabilities, n)
  answer id probe n = (is_ready true, n)
  answer id node_get_capabilities n = (no_capabilities, n)
  answer id node_get_info n = (node_info id.node_id, n)
  answer id (publish_volume req) n =
      let (r, n') = node_publish_volume disk kernel calls req n in (reply_of r, n')
  answer id (unpublish_volume req) n =
      let (r, n') = node_unpublish_volume disk kernel calls req n in (reply_of r, n')

  unfoldable pub answer_all : Identity → List Call → Node W → List Reply × Node W
  unfolding node_publish_volume node_unpublish_volume
  answer_all id [] n = ([], n)
  answer_all id (call ∷ rest) n =
      let (r, n') = answer id call n in
      let (replies, n'') = answer_all id rest n' in (r ∷ replies, n'')

  abbrev pub failing : ServeFault → Node W → Served × Node W
  failing e n = (record { replies = []; fault = some e }, n)

  abbrev pub listening : Identity → Session → Bool → Node W → Served × Node W
  listening id session true n =
      let (replies, n') = answer_all id session.incoming n in
      (record { replies = replies; fault = ending_fault session.ending }, n')
  listening id session false n = failing listen_failed n

  abbrev pub unlinked : Identity → Session → Str → Removal → Node W → Served × Node W
  unlinked id session path in_place n = failing remove_failed n
  unlinked id session path removed n =
      let (fine, n') = net.listen path n in listening id session fine n'
  unlinked id session path absent n =
      let (fine, n') = net.listen path n in listening id session fine n'

  unfoldable pub serve : Str → Identity → Session → Node W → Served × Node W
  unfolding trim_prefix answer_all
  serve endpoint id session n =
      let path = trim_prefix endpoint scheme in
      let (r, n') = net.remove_socket path n in
      if str_eq path endpoint then failing bad_endpoint n else unlinked id session path r n'
