-- ===== src/Driver.antt =====
-- pkg/driver/node.go: NodePublishVolume and NodeUnpublishVolume. The texts of the errors are not
-- modelled, only their codes. `lockTarget` is the parameter `wait_for`: what other goroutines do
-- until the target's lock is free.
pub mod Republishing
pub mod Recording
pub mod Tracking
pub mod Success
pub mod Serializing
pub mod Service
pub mod RbacHint
use roommate_csi.Prelude.{
  ℕ, suc, Bool, true, false, ◌||◌, Option, none, some, [], update, if◌then◌else◌,
}
use roommate_csi.Prelude.Bytes.{Str, str, str_eq}
use roommate_csi.Map.{Map}
use roommate_csi.State.{Error, Result, ok, err, forbidden, unauthorized, not_found}
use roommate_csi.Volume.{
  Config, Parsed, good, bad, attribute, parse_config, kind_secret, kind_config_map,
}
use roommate_csi.Token.{TokenEntry, extract, pod_identity}
use roommate_csi.Mounts.{
  Mount, Live, Fault, Node, Disk, Kernel, get_live, was_published, detach_stale, put, remove,
}

abbrev pub key_ephemeral : Str
key_ephemeral = str "csi.storage.k8s.io/ephemeral"

-- The codes of gRPC that this package returns.
pub data Code : Type 0 where
  invalid_argument failed_precondition permission_denied object_not_found internal : Code

pub data Outcome (A : Type 0) : Type 0 where
  done : A → Outcome A
  failed : Code → Outcome A

pub record Request : Type 0 where
  pub volume_id : Str
  pub target_path : Str
  pub volume_context : Map Str

-- What a publish calls outside this program. `read_object` is the read by which authorization is
-- proved, through the client whose token is that of the live mount given.
pub record Calls (W : Type 0) : Type 0 where
  pub valid_subdomain : Str → Bool
  pub unmarshal_tokens : Str → Option (Map TokenEntry)
  pub client_for : ℕ → Node W → Bool × Node W
  pub read_object : ℕ → Config → Node W → Result (Unit {0}) × Node W
  pub make_target : Str → ℕ → Node W → Bool × Node W
  pub start_watch : Config → Node W → ℕ × Node W
  pub mount_fuse : Str → Config → Node W → Option ℕ × Node W
  pub remove_target : Str → Node W → Node W
  pub wait_for : Str → Node W → Node W

abbrev pub Op : Type 0 → Type 0 → Type 0
Op W A = Node W → Outcome A × Node W

abbrev pub accepted : Parsed Config → Option Config
accepted (good cfg) = some cfg
accepted (bad e) = none

abbrev pub known_kind : Str → Bool
known_kind kind = str_eq kind kind_secret || str_eq kind kind_config_map

-- The code for a read that failed.
unfoldable pub read_code : Error → Code
read_code forbidden = permission_denied
read_code unauthorized = permission_denied
read_code not_found = object_not_found
read_code e = internal

-- An error is logged, not returned, if the target was published before.
abbrev pub excused : Bool → Outcome (Unit {0}) → Outcome (Unit {0})
excused restarting (done u) = done tt
excused true (failed c) = done tt
excused false (failed c) = failed c

module _ {W : Type 0} where
  abbrev pub chain : {A B : Type 0} → Outcome A → (A → Op W B) → Op W B
  chain (done a) f n = f a n
  chain (failed c) f n = (failed c, n)

  infixl 5 ◌>>=◌ ◌>>◌
  abbrev pub ◌>>=◌ : {A B : Type 0} → Op W A → (A → Op W B) → Op W B
  ◌>>=◌ m f n = let (r, n') = m n in chain r f n'

  abbrev pub ◌>>◌ : {A B : Type 0} → Op W A → Op W B → Op W B
  m >> k = m >>= λ _. k

  abbrev pub from : {A : Type 0} → Code → Option A → Op W A
  from c none n = (failed c, n)
  from c (some a) n = (done a, n)

  abbrev pub guard : Code → Bool → Op W (Unit {0})
  guard c true n = (done tt, n)
  guard c false n = (failed c, n)

  -- A call that reports whether it went well.
  abbrev pub attempt : Code → (Node W → Bool × Node W) → Op W (Unit {0})
  attempt c call n = let (fine, n') = call n in guard c fine n'

  -- A new `Live` that holds the token.
  unfoldable pub new_live : Str → Op W ℕ
  new_live token n =
      let l : Live = record { cancel = none; unmount = none; token = some token } in
      let p = n.next_live in (done p, record n { lives = update n.lives p l; next_live = suc p })

  abbrev pub set_token : Option Str → ℕ → Node W → Node W
  set_token none p n = n
  set_token (some token) p n = record n {
    lives = update n.lives p (record (n.lives p) { token = some token });
  }

  abbrev pub count_attempt : Op W (Unit {0})
  count_attempt n = (done tt, record n { publish_attempts = suc n.publish_attempts })

  abbrev pub checked : Result (Unit {0}) → Op W (Unit {0})
  checked (ok u) n = (done tt, n)
  checked (err e) n = (failed (read_code e), n)

module _ {W : Type 0} (disk : Disk W) (kernel : Kernel W) (calls : Calls W) where
  abbrev pub detached : Option Fault → Op W (Unit {0})
  detached none n = (done tt, n)
  detached (some e) n = (failed internal, n)

  -- A mount that fails cancels the watch loop.
  abbrev pub mounted : ℕ → Option ℕ → Op W ℕ
  mounted watch none n = (failed internal, kernel.cancel_watch watch n)
  mounted watch (some server) n = (done server, n)

  abbrev pub recorded : ℕ → ℕ → Option Fault → Op W (Unit {0})
  recorded watch server none n = (done tt, n)
  recorded watch server (some e) n =
      (failed internal, (kernel.unmount_server server (kernel.cancel_watch watch n)).1)

  -- Completes the `Live` and puts it into the registry.
  unfoldable pub record_mount : Str → ℕ → ℕ → ℕ → Config → Op W (Unit {0})
  unfolding put
  record_mount target p watch server cfg n =
      let l : Live = record (n.lives p) { cancel = some watch; unmount = some server } in
      let m : Mount = record {
        target_path = target;
        object_kind = cfg.object_kind;
        object_name = cfg.object_name;
        namespace = cfg.namespace;
      } in
      let (e, n') = put disk kernel target p m (record n { lives = update n.lives p l }) in
      recorded watch server e n'

  abbrev pub start : Str → Config → Op W (ℕ × ℕ)
  start target cfg n =
      let (watch, n') = calls.start_watch cfg n in
      let (server, n'') = calls.mount_fuse target cfg n' in
      (mounted watch server >>= λ s. λ t. (done (watch, s), t)) n''

  unfoldable pub publish : Str → Map Str → Op W (Unit {0})
  unfolding record_mount detach_stale parse_config extract pod_identity new_live attribute
  publish target vc = do
    count_attempt
    guard invalid_argument (str_eq (attribute vc key_ephemeral) (str "true"))
    who ← from invalid_argument (pod_identity vc)
    cfg ← from invalid_argument (accepted (parse_config calls.valid_subdomain vc who.namespace))
    token ← from failed_precondition (extract calls.unmarshal_tokens vc)
    p ← new_live token
    attempt internal (calls.client_for p)
    guard internal (known_kind cfg.object_kind)
    λ n. (let (r, n') = calls.read_object p cfg n in checked r n')
    λ n. (let (e, n') = detach_stale disk kernel target n in detached e n')
    attempt internal (calls.make_target target cfg.dir_mode)
    s ← start target cfg
    record_mount target p s.0 s.1 cfg

  unfoldable pub swap_token : Map Str → ℕ → Node W → Node W
  unfolding extract
  swap_token vc p n = set_token (extract calls.unmarshal_tokens vc) p n

  abbrev pub under_lock : Option ℕ → Str → Map Str → Op W (Unit {0})
  under_lock (some p) target vc n = (done tt, swap_token vc p n)
  under_lock none target vc n =
      let restarting = was_published target n in
      let (r, n') = publish target vc n in (excused restarting r, n')

  abbrev pub missed : Option ℕ → Str → Map Str → Op W (Unit {0})
  missed (some p) target vc n = (done tt, swap_token vc p n)
  missed none target vc n =
      let n' = calls.wait_for target n in under_lock (get_live target n') target vc n'

  unfoldable pub node_publish_volume : Request → Op W (Unit {0})
  unfolding publish swap_token get_live was_published
  node_publish_volume req n =
      if str_eq req.volume_id [] || str_eq req.target_path []
      then (failed invalid_argument, n)
      else missed (get_live req.target_path n) req.target_path req.volume_context n

  abbrev pub unpublished : Str → Option Fault → Op W (Unit {0})
  unpublished target none n = (done tt, calls.remove_target target n)
  unpublished target (some e) n = (failed internal, n)

  unfoldable pub node_unpublish_volume : Request → Op W (Unit {0})
  unfolding remove
  node_unpublish_volume req n =
      let (e, n') = remove disk kernel req.target_path n in
      if str_eq req.volume_id [] || str_eq req.target_path []
      then (failed invalid_argument, n)
      else unpublished req.target_path e n'
