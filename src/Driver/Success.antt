-- ===== src/Driver/Success.antt =====
-- What a publish of pkg/driver/node.go has done when it succeeds: its target has a record.
use roommate_csi.Prelude.{ℕ, suc, update, ◌≡◌, refl, Bool, true, false, Option, none, some, arith}
use roommate_csi.Prelude.Bytes.{Bytes, Str, str, str_eq}
use roommate_csi.Map.{Map}
use roommate_csi.State.{Result, ok, err}
use roommate_csi.Volume.{Config, attribute, parse_config}
use roommate_csi.Token.{extract, pod_identity}
use roommate_csi.Mounts.{Mount, Live, Node, Disk, Kernel, Fault, put, detach_stale}
use roommate_csi.Mounts.Recorded.{InMap, HasRecord, put_same-HasRecord}
use roommate_csi.Driver.{
  Calls, Code, done, Op, ◌>>=◌, ◌>>◌, from, guard, attempt, checked, new_live, publish, accepted,
  key_ephemeral, known_kind, mounted, start, recorded, record_mount, detached, invalid_argument,
  failed_precondition, internal,
}

module _ {W : Type 0} (Q : Node W → Type 0) where
  -- The operation leaves `Q` if it succeeds.
  abbrev pub Leaves : Op W (Unit {0}) → Type 0
  Leaves m = (n : Node W) → (m n).0 ≡ done tt → Q (m n).1

  from_Leaves :
      {A : Type 0} (c : Code) (o : Option A) (f : A → Op W (Unit {0}))
      → ((a : A) → Leaves (f a))
      → Leaves (from c o >>= f)
  from_Leaves c none f each n fine = absurd (ground arith)
  from_Leaves c (some a) f each n fine = each a n fine

  guard-Leaves :
      (c : Code) (test : Bool) (f : Unit {0} → Op W (Unit {0}))
      → Leaves (f tt)
      → Leaves (guard c test >>= f)
  guard-Leaves c true f each n fine = each n fine
  guard-Leaves c false f each n fine = absurd (ground arith)

  checked-Leaves :
      (r : Result (Unit {0})) (f : Unit {0} → Op W (Unit {0}))
      → Leaves (f tt)
      → Leaves (checked r >>= f)
  checked-Leaves (ok u) f each n fine = each n fine
  checked-Leaves (err e) f each n fine = absurd (ground arith)

module _ {W : Type 0} (disk : Disk W) (kernel : Kernel W) (calls : Calls W) (target : Str)
    (codec : (m : Map Mount) (bytes : Bytes)
      → disk.marshal m ≡ some bytes
      → InMap target m
      → (read : Map Mount) × (disk.unmarshal bytes ≡ some (some read)) × InMap target read)
    (alone : (t : Node W) → InMap target t.records → InMap target (kernel.others t).records) where
  recorded_leaves :
      (watch server : ℕ) (r : Option Fault × Node W)
      → (r.0 ≡ none → HasRecord disk target r.1)
      → (recorded disk kernel calls watch server r.0 r.1).0 ≡ done tt
      → HasRecord disk target (recorded disk kernel calls watch server r.0 r.1).1
  recorded_leaves watch server (none, n) has fine = has refl
  recorded_leaves watch server (some e, n) has fine = absurd (ground arith)

  record_mount-Leaves :
      (p watch server : ℕ) (cfg : Config)
      → Leaves (HasRecord disk target) (record_mount disk kernel calls target p watch server cfg)
  unfolding record_mount
  record_mount-Leaves p watch server cfg n fine =
      let l : Live = record (n.lives p) { cancel = some watch; unmount = some server } in
      let m : Mount = record {
        target_path = target;
        object_kind = cfg.object_kind;
        object_name = cfg.object_name;
        namespace = cfg.namespace;
      } in
      let t : Node W = record n { lives = update n.lives p l } in
      recorded_leaves watch server (put disk kernel target p m t)
        (put_same-HasRecord disk target codec kernel p m t alone) fine

  mounted-Leaves :
      (p watch : ℕ) (cfg : Config) (o : Option ℕ)
      → Leaves (HasRecord disk target) (
          ◌>>=◌ {B = ℕ × ℕ} (mounted disk kernel calls watch o) (λ s. λ t. (done (watch, s), t))
          >>= λ s. record_mount disk kernel calls target p s.0 s.1 cfg)
  mounted-Leaves p watch cfg none n fine = absurd (ground arith)
  mounted-Leaves p watch cfg (some server) n fine = record_mount-Leaves p watch server cfg n fine

  detached-Leaves :
      (o : Option Fault) (f : Unit {0} → Op W (Unit {0}))
      → Leaves (HasRecord disk target) (f tt)
      → Leaves (HasRecord disk target) (detached disk kernel calls o >>= f)
  detached-Leaves none f each n fine = each n fine
  detached-Leaves (some e) f each n fine = absurd (ground arith)

  proved-Leaves :
      (p : ℕ) (cfg : Config)
      → Leaves (HasRecord disk target) (do
        λ n. (let (e, n') = detach_stale disk kernel target n in detached disk kernel calls e n')
        attempt internal (calls.make_target target cfg.dir_mode)
        s ← start disk kernel calls target cfg
        record_mount disk kernel calls target p s.0 s.1 cfg)
  proved-Leaves p cfg n fine =
      let Q = HasRecord disk target in
      detached-Leaves (detach_stale disk kernel target n).0 _
        (λ n1 fine1.
          guard-Leaves Q internal (calls.make_target target cfg.dir_mode n1).0 _
            (λ n2 fine2.
              let watch = calls.start_watch cfg n2 in
              let server = calls.mount_fuse target cfg watch.1 in
              mounted-Leaves p watch.0 cfg server.0 server.1 fine2)
            (calls.make_target target cfg.dir_mode n1).1 fine1)
        (detach_stale disk kernel target n).1 fine

  prepared-Leaves :
      (cfg : Config) (token : Str)
      → Leaves (HasRecord disk target) (do
        p ← new_live token
        attempt internal (calls.client_for p)
        guard internal (known_kind cfg.object_kind)
        λ n. (let (r, n') = calls.read_object p cfg n in checked r n')
        λ n. (let (e, n') = detach_stale disk kernel target n in detached disk kernel calls e n')
        attempt internal (calls.make_target target cfg.dir_mode)
        s ← start disk kernel calls target cfg
        record_mount disk kernel calls target p s.0 s.1 cfg)
  unfolding new_live
  prepared-Leaves cfg token n fine =
      let Q = HasRecord disk target in
      let p = n.next_live in
      let l : Live = record { cancel = none; unmount = none; token = some token } in
      let n1 : Node W = record n { lives = update n.lives p l; next_live = suc p } in
      guard-Leaves Q internal (calls.client_for p n1).0 _
        (guard-Leaves Q internal (known_kind cfg.object_kind) _ (λ n2 fine2.
          checked-Leaves Q (calls.read_object p cfg n2).0 _ (proved-Leaves p cfg)
            (calls.read_object p cfg n2).1 fine2))
        (calls.client_for p n1).1 fine

  -- A publish that succeeds leaves a record of its target, in memory and in the state file.
  pub publish-HasRecord :
      (vc : Map Str) → Leaves (HasRecord disk target) (publish disk kernel calls target vc)
  unfolding publish
  publish-HasRecord vc n fine =
      let Q = HasRecord disk target in
      guard-Leaves Q invalid_argument (str_eq (attribute vc key_ephemeral) (str "true")) _
        (from_Leaves Q invalid_argument (pod_identity vc) _ λ who.
          from_Leaves Q invalid_argument
            (accepted (parse_config calls.valid_subdomain vc who.namespace)) _
            λ cfg.
              from_Leaves Q failed_precondition (extract calls.unmarshal_tokens vc) _
                (prepared-Leaves cfg))
        (record n { publish_attempts = suc n.publish_attempts }) fine
