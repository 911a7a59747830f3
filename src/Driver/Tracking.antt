-- ===== src/Driver/Tracking.antt =====
-- The record of one target through the calls of pkg/driver/node.go.
use roommate_csi.Prelude.{
  ℕ, suc, update, Bool, true, false, ◌||◌, Option, none, some, [], Bool-cases, inl, inr,
}
use roommate_csi.Prelude.Bytes.{Str, str, str_eq}
use roommate_csi.Map.{Map}
use roommate_csi.State.{Result, ok, err}
use roommate_csi.Volume.{Config, attribute, parse_config}
use roommate_csi.Token.{extract, pod_identity}
use roommate_csi.Mounts.{
  Mount, Live, Node, Disk, Kernel, Fault, get_live, put, remove, detach_stale,
}
use roommate_csi.Mounts.Stability.{IsStable, detach_stale_keeps}
use roommate_csi.Driver.{
  Request, Calls, Code, done, Op, ◌>>=◌, ◌>>◌, from, guard, attempt, checked, new_live, publish,
  accepted, key_ephemeral, known_kind, mounted, start, recorded, record_mount, detached, set_token,
  swap_token, under_lock, missed, node_publish_volume, unpublished, node_unpublish_volume,
  invalid_argument, failed_precondition, internal,
}

-- What other goroutines do while such a call is under way keeps `P`.
pub record IsUndisturbed {W : Type 0} (kernel : Kernel W) (calls : Calls W) (P : Node W → Type 0)
    : Type 0 where
  pub kernel_calls : IsStable kernel P
  pub client_for : (p : ℕ) (n : Node W) → P n → P (calls.client_for p n).1
  pub read_object : (p : ℕ) (cfg : Config) (n : Node W) → P n → P (calls.read_object p cfg n).1
  pub make_target : (path : Str) (mode : ℕ) (n : Node W) → P n → P (calls.make_target path mode n).1
  pub start_watch : (cfg : Config) (n : Node W) → P n → P (calls.start_watch cfg n).1
  pub mount_fuse :
      (path : Str) (cfg : Config) (n : Node W) → P n → P (calls.mount_fuse path cfg n).1
  pub remove_target : (path : Str) (n : Node W) → P n → P (calls.remove_target path n)
  pub wait_for : (path : Str) (n : Node W) → P n → P (calls.wait_for path n)

module _ {W : Type 0} (P : Node W → Type 0) where
  -- The operation keeps `P`.
  abbrev pub Keeps : {A : Type 0} → Op W A → Type 0
  Keeps m = (n : Node W) → P n → P (m n).1

  module _ {B : Type 0} where
    from_Keeps :
        {A : Type 0} (c : Code) (o : Option A) (f : A → Op W B)
        → ((a : A) → Keeps (f a))
        → Keeps (from c o >>= f)
    from_Keeps c none f each n kept = kept
    from_Keeps c (some a) f each n kept = each a n kept

    guard-Keeps :
        (c : Code) (test : Bool) (f : Unit {0} → Op W B) → Keeps (f tt) → Keeps (guard c test >>= f)
    guard-Keeps c true f each n kept = each n kept
    guard-Keeps c false f each n kept = kept

-- What the steps of a publish keep, if `Put` and every call that they make keep it, and it does not
-- depend on what the pointers point to, nor on the counter.
module _ {W : Type 0} (disk : Disk W) (kernel : Kernel W) (calls : Calls W) (P : Node W → Type 0)
    (undisturbed : IsUndisturbed kernel calls P)
    (local : (n : Node W) (lives : ℕ → Live) (next_live attempts : ℕ)
      → P n
      → P (record n { lives = lives; next_live = next_live; publish_attempts = attempts }))
    (placed : (target : Str) (p : ℕ) (m : Mount) (n : Node W)
      → P n
      → P (put disk kernel target p m n).1) where
  recorded-Keeps :
      (watch server : ℕ) (e : Option Fault) → Keeps P (recorded disk kernel calls watch server e)
  recorded-Keeps watch server none n kept = kept
  recorded-Keeps watch server (some e) n kept =
      undisturbed.kernel_calls.unmount_server server (kernel.cancel_watch watch n)
        (undisturbed.kernel_calls.cancel_watch watch n kept)

  record_mount-Keeps :
      (target : Str) (p watch server : ℕ) (cfg : Config)
      → Keeps P (record_mount disk kernel calls target p watch server cfg)
  unfolding record_mount
  record_mount-Keeps target p watch server cfg n kept =
      let l : Live = record (n.lives p) { cancel = some watch; unmount = some server } in
      let lives : ℕ → Live = update n.lives p l in
      recorded-Keeps watch server _ _ (
        placed target p _ (record n { lives = lives })
          (local n lives n.next_live n.publish_attempts kept))

  mounted-Keeps :
      (path : Str) (p watch : ℕ) (cfg : Config) (o : Option ℕ)
      → Keeps P (
          ◌>>=◌ {B = ℕ × ℕ} (mounted disk kernel calls watch o) (λ s. λ t. (done (watch, s), t))
          >>= λ s. record_mount disk kernel calls path p s.0 s.1 cfg)
  mounted-Keeps path p watch cfg none n kept = undisturbed.kernel_calls.cancel_watch watch n kept
  mounted-Keeps path p watch cfg (some server) n kept =
      record_mount-Keeps path p watch server cfg n kept

  checked-Keeps :
      {B : Type 0} (r : Result (Unit {0})) (f : Unit {0} → Op W B)
      → Keeps P (f tt)
      → Keeps P (checked r >>= f)
  checked-Keeps (ok u) f each n kept = each n kept
  checked-Keeps (err e) f each n kept = kept

  detached-Keeps :
      {B : Type 0} (o : Option Fault) (f : Unit {0} → Op W B)
      → Keeps P (f tt)
      → Keeps P (detached disk kernel calls o >>= f)
  detached-Keeps none f each n kept = each n kept
  detached-Keeps (some e) f each n kept = kept

  -- The mount, once the pod has been found to be allowed to read the object.
  proved-Keeps :
      (path : Str) (p : ℕ) (cfg : Config)
      → Keeps P (do
        λ n. (let (e, n') = detach_stale disk kernel path n in detached disk kernel calls e n')
        attempt internal (calls.make_target path cfg.dir_mode)
        s ← start disk kernel calls path cfg
        record_mount disk kernel calls path p s.0 s.1 cfg)
  proved-Keeps path p cfg n kept =
      detached-Keeps (detach_stale disk kernel path n).0 _
        (λ n1 kept1.
          guard-Keeps P internal (calls.make_target path cfg.dir_mode n1).0 _
            (λ n2 kept2.
              let watch = calls.start_watch cfg n2 in
              let server = calls.mount_fuse path cfg watch.1 in
              let up =
                undisturbed.mount_fuse path cfg watch.1 (undisturbed.start_watch cfg n2 kept2) in
              mounted-Keeps path p watch.0 cfg server.0 server.1 up)
            (calls.make_target path cfg.dir_mode n1).1
            (undisturbed.make_target path cfg.dir_mode n1 kept1))
        (detach_stale disk kernel path n).1
        (detach_stale_keeps disk kernel P undisturbed.kernel_calls path n kept)

  -- A publish with everything it needs.
  prepared-Keeps :
      (path : Str) (cfg : Config) (token : Str)
      → Keeps P (do
        p ← new_live token
        attempt internal (calls.client_for p)
        guard internal (known_kind cfg.object_kind)
        λ n. (let (r, n') = calls.read_object p cfg n in checked r n')
        λ n. (let (e, n') = detach_stale disk kernel path n in detached disk kernel calls e n')
        attempt internal (calls.make_target path cfg.dir_mode)
        s ← start disk kernel calls path cfg
        record_mount disk kernel calls path p s.0 s.1 cfg)
  unfolding new_live
  prepared-Keeps path cfg token n kept =
      let p = n.next_live in
      let l : Live = record { cancel = none; unmount = none; token = some token } in
      let n1 : Node W = record n { lives = update n.lives p l; next_live = suc p } in
      guard-Keeps P internal (calls.client_for p n1).0 _
        (guard-Keeps P internal (known_kind cfg.object_kind) _ (λ n2 kept2.
          checked-Keeps (calls.read_object p cfg n2).0 _ (proved-Keeps path p cfg)
            (calls.read_object p cfg n2).1 (undisturbed.read_object p cfg n2 kept2)))
        (calls.client_for p n1).1
        (undisturbed.client_for p n1 (local n n1.lives n1.next_live n.publish_attempts kept))

  pub publish-Keeps : (path : Str) (vc : Map Str) → Keeps P (publish disk kernel calls path vc)
  unfolding publish
  publish-Keeps path vc n kept =
      guard-Keeps P invalid_argument (str_eq (attribute vc key_ephemeral) (str "true")) _
        (from_Keeps P invalid_argument (pod_identity vc) _ λ who.
          from_Keeps P invalid_argument
            (accepted (parse_config calls.valid_subdomain vc who.namespace)) _
            λ cfg.
              from_Keeps P failed_precondition (extract calls.unmarshal_tokens vc) _
                (prepared-Keeps path cfg))
        (record n { publish_attempts = suc n.publish_attempts })
        (local n n.lives n.next_live (suc n.publish_attempts) kept)

  set_token_keeps : (o : Option Str) (p : ℕ) (n : Node W) → P n → P (set_token o p n)
  set_token_keeps none p n kept = kept
  set_token_keeps (some token) p n kept = local n _ n.next_live n.publish_attempts kept

  under_lock-Keeps :
      (o : Option ℕ) (target : Str) (vc : Map Str)
      → Keeps P (under_lock disk kernel calls o target vc)
  unfolding swap_token
  under_lock-Keeps (some p) target vc n kept =
      set_token_keeps (extract calls.unmarshal_tokens vc) p n kept
  under_lock-Keeps none target vc n kept = publish-Keeps target vc n kept

  missed-Keeps :
      (o : Option ℕ) (target : Str) (vc : Map Str) → Keeps P (missed disk kernel calls o target vc)
  unfolding swap_token
  missed-Keeps (some p) target vc n kept =
      set_token_keeps (extract calls.unmarshal_tokens vc) p n kept
  missed-Keeps none target vc n kept =
      let n' = calls.wait_for target n in
      under_lock-Keeps (get_live target n') target vc n' (undisturbed.wait_for target n kept)

  pub node_publish_volume-Keeps :
      (req : Request) → Keeps P (node_publish_volume disk kernel calls req)
  unfolding node_publish_volume
  node_publish_volume-Keeps req n kept =
      elim (Bool-cases (str_eq req.volume_id [] || str_eq req.target_path [])) [
        | inl lacking ↦ rw lacking kept
        | inr complete ↦
            rw complete
              (missed-Keeps (get_live req.target_path n) req.target_path req.volume_context n kept)
      ]

  unpublished-Keeps :
      (target : Str) (e : Option Fault) → Keeps P (unpublished disk kernel calls target e)
  unpublished-Keeps target none n kept = undisturbed.remove_target target n kept
  unpublished-Keeps target (some e) n kept = kept

  pub node_unpublish_volume_keeps :
      (req : Request) (n : Node W)
      → P n
      → P (remove disk kernel req.target_path n).1
      → P (node_unpublish_volume disk kernel calls req n).1
  unfolding node_unpublish_volume
  node_unpublish_volume_keeps req n kept removed =
      elim (Bool-cases (str_eq req.volume_id [] || str_eq req.target_path [])) [
        | inl lacking ↦ rw lacking kept
        | inr complete ↦ rw complete (
            unpublished-Keeps req.target_path (remove disk kernel req.target_path n).0
              (remove disk kernel req.target_path n).1 removed)
      ]
