-- ===== src/Tests/DriverRuns.antt =====
-- A node with one published target, and the theorems on the registry and the driver there. The state
-- file holds the number of the records before them; the world says whether the disk takes a write.
mod Processes
use roommate_csi.Prelude.{
  some_inj, length, ℕ, suc, zero, ◌≡◌, refl, ap, subst, arith, Bool, true, false, Option, none,
  some, [], ◌∷◌, if◌then◌else◌,
}
use roommate_csi.Prelude.Bytes.{Bytes, Str, str, str_eq}
use roommate_csi.Map.{Map, lookup}
use roommate_csi.State.{ok}
use roommate_csi.Mounts.{
  Mount, Node, Disk, Kernel, whole, torn, not_exist, persist, get_live, was_published, new_registry,
}
use roommate_csi.Mounts.Recorded.{InMap}
use roommate_csi.Mounts.Persistence.{Persists, persist-Persists}
use roommate_csi.Mounts.Removal.{IsForgotten, IsQuiet}
use roommate_csi.Driver.{Request, Calls, record_mount, node_unpublish_volume, key_ephemeral}
use roommate_csi.Driver.Recording.{IsAlone, record_mount-get_live, unpublish_forgets}
use roommate_csi.Tests.World.{cfg}

-- A string behind its terminator, in front of `rest`.
abbrev write_str : Str → Bytes → Bytes
write_str [] rest = 0 ∷ rest
write_str (b ∷ s) rest = suc b ∷ write_str s rest

abbrev consed : ℕ → Option (Str × Bytes) → Option (Str × Bytes)
consed b none = none
consed b (some (s, rest)) = some (b ∷ s, rest)

abbrev read_str : Bytes → Option (Str × Bytes)
read_str [] = none
read_str (zero ∷ rest) = some ([], rest)
read_str (suc b ∷ rest) = consed b (read_str rest)

read_str-write_str : (s : Str) (rest : Bytes) → read_str (write_str s rest) ≡ some (s, rest)
read_str-write_str [] rest = refl
read_str-write_str (b ∷ s) rest = ap (consed b) (read_str-write_str s rest)

abbrev then_read {ℓ} : {A : Type ℓ} → Option (Str × Bytes) → (Str → Bytes → Option A) → Option A
then_read none f = none
then_read (some (s, rest)) f = f s rest

abbrev write_records : Map Mount → Bytes
write_records [] = []
write_records ((k, m) ∷ rest) = write_str k (
    write_str m.target_path (
      write_str m.object_kind
        (write_str m.object_name (write_str m.namespace (write_records rest)))))

abbrev encode : Map Mount → Option Bytes
encode m = some (length m ∷ write_records m)

abbrev behind : Str × Mount → Option (Map Mount) → Option (Map Mount)
behind e none = none
behind e (some m) = some (e ∷ m)

abbrev read_records : ℕ → Bytes → Option (Map Mount)
read_records zero bytes = some []
read_records (suc n) bytes = then_read (read_str bytes) λ k b1. then_read (read_str b1) λ t b2.
    then_read (read_str b2) λ kind b3. then_read (read_str b3) λ name b4.
      then_read (read_str b4) λ ns b5.
        behind
          (k, record { target_path = t; object_kind = kind; object_name = name; namespace = ns })
          (read_records n b5)

-- What was read is not null.
abbrev an_object : Option (Map Mount) → Option (Option (Map Mount))
an_object none = none
an_object (some m) = some (some m)

abbrev decode : Bytes → Option (Option (Map Mount))
decode [] = none
decode (n ∷ bytes) = an_object (read_records n bytes)

read-write_records : (m : Map Mount) → read_records (length m) (write_records m) ≡ some m
read-write_records [] = refl
read-write_records ((k, m) ∷ rest) = rw (read_str-write_str k _) (
    rw (read_str-write_str m.target_path _) (
      rw (read_str-write_str m.object_kind _) (
        rw (read_str-write_str m.object_name _)
          (rw (read_str-write_str m.namespace _) (rw (read-write_records rest) refl)))))

codec :
    (name : Str) (m : Map Mount) (bytes : Bytes)
    → encode m ≡ some bytes
    → InMap name m
    → (read : Map Mount) × (decode bytes ≡ some (some read)) × InMap name read
codec name m bytes e has =
    (m, subst (λ b. decode b ≡ some (some m)) (some_inj.0 e) (rw (read-write_records m) refl), has)

abbrev disk : Disk Bool
disk = record {
  state_path = str "/var/lib/state.json";
  parent = λ path. str "/";
  marshal = encode;
  unmarshal = decode;
  mkdir_all = λ path w. (true, w);
  write_file = λ bytes w. (if w then whole else torn (some []), w);
  rename_file = λ w. (true, w);
  remove_file = λ w. (true, w);
}

abbrev kernel : Kernel Bool
kernel = record {
  cancel_watch = λ watch n. n;
  unmount_server = λ server n. (false, n);
  lstat = λ path n. (not_exist, n);
  umount_detach = λ path n. (true, n);
  fusermount = λ path n. (true, n);
  others = λ n. n;
}

abbrev target : Str
target = str "/pods/a"

abbrev context : Map Str
context =
    (key_ephemeral, str "true")
    ∷ (str "csi.storage.k8s.io/serviceAccount.tokens", str "{}")
    ∷ (str "csi.storage.k8s.io/pod.namespace", str "default")
    ∷ (str "csi.storage.k8s.io/pod.uid", str "u1")
    ∷ (str "csi.storage.k8s.io/serviceAccount.name", str "app")
    ∷ (str "objectKind", str "Secret")
    ∷ (str "objectName", str "creds")
    ∷ []

abbrev calls : Calls Bool
calls = record {
  valid_subdomain = λ name. true;
  unmarshal_tokens =
      λ raw. some (([], record { token = str "t2"; expiration_timestamp = [] }) ∷ []);
  client_for = λ p n. (true, n);
  read_object = λ p cfg n. (ok tt, n);
  make_target = λ path mode n. (true, n);
  start_watch = λ cfg n. (7, n);
  mount_fuse = λ path cfg n. (some 8, n);
  remove_target = λ path n. n;
  wait_for = λ path n. n;
}

abbrev empty_node : Bool → Node Bool
empty_node w = record {
  live = [];
  records = [];
  lives = λ p. record { cancel = none; unmount = none; token = some (str "t1") };
  next_live = 0;
  files = [];
  publish_attempts = 0;
  world = w;
}

abbrev record_of : Mount
record_of = record {
  target_path = target;
  object_kind = str "Secret";
  object_name = str "creds";
  namespace = str "default";
}

abbrev mounted_node : Node Bool
mounted_node = record (empty_node true) {
  live = (target, 0) ∷ [];
  records = (target, record_of) ∷ [];
}

abbrev restarted_node : Node Bool
restarted_node = record (empty_node false) { records = (target, record_of) ∷ [] }

abbrev request : Request
request = record { volume_id = str "v"; target_path = target; volume_context = context }

persist-Persists_example : Persists disk mounted_node (persist disk mounted_node)
persist-Persists_example = persist-Persists disk mounted_node

alone : IsAlone disk kernel calls target
alone = record { others = λ n. refl; cancel_watch = λ i n. refl; unmount_server = λ i n. refl }

record_mount-get_live_example :
    get_live target (record_mount disk kernel calls target 3 7 8 cfg (empty_node false)).1 ≡ some 3
record_mount-get_live_example =
    (record_mount-get_live disk kernel calls target alone 3 7 8 cfg (empty_node false)).0

quiet : IsQuiet disk kernel target
quiet = record {
  others = λ n gone. gone;
  cancel_watch = λ i n gone. gone;
  unmount_server = λ i n gone. gone;
  lstat = λ path n gone. gone;
  umount_detach = λ path n gone. gone;
  fusermount = λ path n gone. gone;
}

codec_without :
    (name : Str) (m : Map Mount) (bytes : Bytes)
    → encode m ≡ some bytes
    → lookup name m ≡ none
    → (read : Map Mount) × (decode bytes ≡ some (some read)) × (lookup name read ≡ none)
codec_without name m bytes e missing = (
  m,
  subst (λ b. decode b ≡ some (some m)) (some_inj.0 e) (rw (read-write_records m) refl),
  missing,
)

unpublish_forgets_example :
    was_published target
      (new_registry disk (node_unpublish_volume disk kernel calls request mounted_node).1)
    ≡ false
unfolding node_unpublish_volume str_eq lookup
unpublish_forgets_example =
    (unpublish_forgets disk kernel calls request mounted_node quiet (codec_without target)
        (λ t gone. gone) (λ t gone. gone) refl).1
      refl
