-- ===== src/Driver/Republishing.antt =====
-- `NodePublishVolume` of pkg/driver/node.go: kubelet's republishes, which must never fail, and what
-- a first publish has checked.
use roommate_csi.Prelude.{
  ℕ, suc, ◌≡◌, ◌≢◌, refl, ◌∙◌, ap, Bool, true, false, not, ◌||◌, Option, none, some, [], ◌++◌,
  arith, ==-refl, if-false,
}
use roommate_csi.Prelude.Bytes.{Str, str, str_eq, str_eq_iff}
use roommate_csi.Map.{Map, insert}
use roommate_csi.Volume.{Config, Parsed, good, bad, attribute, parse_config}
use roommate_csi.Token.{Identity, extract, pod_identity, authorize}
use roommate_csi.Mounts.{Node, Disk, Kernel, get_live, was_published}
use roommate_csi.Driver.{
  Request, Calls, Code, Outcome, done, failed, invalid_argument, failed_precondition, Op, ◌>>=◌,
  from, accepted, excused, set_token, under_lock, missed, swap_token, publish, key_ephemeral, guard,
  node_publish_volume,
}

-- Both names of the request are there.
abbrev pub is_complete : Request → Bool
is_complete req = not (str_eq req.volume_id [] || str_eq req.target_path [])

module _ {W : Type 0} (disk : Disk W) (kernel : Kernel W) (calls : Calls W) where
  node_publish_volume-missed :
      (req : Request) (n : Node W)
      → is_complete req ≡ true
      → node_publish_volume disk kernel calls req n
        ≡ missed disk kernel calls (get_live req.target_path n) req.target_path req.volume_context n
  unfolding node_publish_volume
  node_publish_volume-missed req n complete =
      if-false (str_eq req.volume_id [] || str_eq req.target_path []) _ _ (ground arith)

  pub republish-swap_token :
      (req : Request) (n : Node W) (p : ℕ)
      → is_complete req ≡ true
      → get_live req.target_path n ≡ some p
      → node_publish_volume disk kernel calls req n
        ≡ (done tt, swap_token disk kernel calls req.volume_context p n)
  republish-swap_token req n p complete found =
      node_publish_volume-missed req n complete
      ∙ ap (λ o. missed disk kernel calls o req.target_path req.volume_context n) found

  -- What a swap of the token with `found` in the request leaves.
  abbrev pub Swapped : ℕ → Option Str → Node W → Node W → Type 0
  Swapped p found n t =
      ((t.live ≡ n.live) × (t.records ≡ n.records))
      × (t.publish_attempts ≡ n.publish_attempts)
      × ((token : Str) (headers : Map Str)
          → found ≡ some token
          → token ≢ []
          → authorize (t.lives p).token headers
            ≡ insert (str "Authorization") (str "Bearer " ++ token) headers)
      × (found ≡ none → t ≡ n)

  set_token-Swapped :
      (p : ℕ) (found : Option Str) (n : Node W) → Swapped p found n (set_token found p n)
  unfolding authorize
  set_token-Swapped p none n = ((refl, refl), refl, λ token headers e. ground arith, λ e. refl)
  set_token-Swapped p (some x) n = (
    (refl, refl),
    refl,
    λ token headers e ne. ground (arith, ==-refl p, str_eq_iff token []),
    λ e. ground arith,
  )

  -- A republish of a target with a live mount succeeds, starts no publish and leaves the registry as
  -- it is. If it carries a usable token, the next request of the mount's client is sent with it; if
  -- not, nothing changes.
  pub republish_swaps :
      (req : Request) (n : Node W) (p : ℕ)
      → is_complete req ≡ true
      → get_live req.target_path n ≡ some p
      → ((node_publish_volume disk kernel calls req n).0 ≡ done tt)
        × Swapped p
            (extract calls.unmarshal_tokens req.volume_context)
            n
            (node_publish_volume disk kernel calls req n).1
  unfolding swap_token
  republish_swaps req n p complete found =
      rw (republish-swap_token req n p complete found)
        (refl, set_token-Swapped p (extract calls.unmarshal_tokens req.volume_context) n)

  excused-done : (r : Outcome (Unit {0})) → excused true r ≡ done tt
  excused-done (done u) = refl
  excused-done (failed c) = refl

  under_lock-done :
      (o : Option ℕ) (target : Str) (vc : Map Str) (n : Node W)
      → was_published target n ≡ true
      → (under_lock disk kernel calls o target vc n).0 ≡ done tt
  under_lock-done (some p) target vc n known = refl
  under_lock-done none target vc n known =
      ap (λ b. excused b (publish disk kernel calls target vc n).0) known ∙ excused-done _

  missed-done :
      (o : Option ℕ) (target : Str) (vc : Map Str) (n : Node W)
      → was_published target (calls.wait_for target n) ≡ true
      → (missed disk kernel calls o target vc n).0 ≡ done tt
  missed-done (some p) target vc n known = refl
  missed-done none target vc n known = under_lock-done _ target vc (calls.wait_for target n) known

  -- A target that counts as published when its lock is got, by this process or by one before it, is
  -- never answered with an error, whatever fails.
  pub known_target_succeeds :
      (req : Request) (n : Node W)
      → is_complete req ≡ true
      → was_published req.target_path (calls.wait_for req.target_path n) ≡ true
      → (node_publish_volume disk kernel calls req n).0 ≡ done tt
  known_target_succeeds req n complete known =
      ap (λ r. r.0) (node_publish_volume-missed req n complete)
      ∙ missed-done (get_live req.target_path n) req.target_path req.volume_context n known

module _ {W A B : Type 0} where
  from-done :
      (c : Code) (o : Option A) (f : A → Op W B) (n : Node W) (b : B)
      → ((from c o >>= f) n).0 ≡ done b
      → (a : A) × (o ≡ some a) × ((f a n).0 ≡ done b)
  from-done c (some a) f n b e = (a, refl, e)
  from-done c none f n b e = ground arith

module _ {W B : Type 0} where
  guard-done :
      (c : Code) (test : Bool) (f : Unit {0} → Op W B) (n : Node W) (b : B)
      → ((guard c test >>= f) n).0 ≡ done b
      → (test ≡ true) × ((f tt n).0 ≡ done b)
  guard-done c true f n b e = (refl, e)
  guard-done c false f n b e = ground arith

accepted-good : (r : Parsed Config) (cfg : Config) → accepted r ≡ some cfg → r ≡ good cfg
accepted-good (good x) cfg e = ground arith
accepted-good (bad x) cfg e = ground arith

module _ {W : Type 0} (disk : Disk W) (kernel : Kernel W) (calls : Calls W) where
  -- A publish that succeeds was of an inline volume and carried the identity of the pod, attributes
  -- that are accepted in the namespace of that pod, and a token.
  pub publish_checked :
      (target : Str) (vc : Map Str) (n : Node W)
      → (publish disk kernel calls target vc n).0 ≡ done tt
      → (attribute vc key_ephemeral ≡ str "true")
        × ((who : Identity) × (pod_identity vc ≡ some who)
            × ((cfg : Config) × (parse_config calls.valid_subdomain vc who.namespace ≡ good cfg))
            × ((token : Str) × (extract calls.unmarshal_tokens vc ≡ some token)))
  unfolding publish
  publish_checked target vc n fine =
      let n1 = record n { publish_attempts = suc n.publish_attempts } in
      let (inline, e1) =
        guard-done invalid_argument (str_eq (attribute vc key_ephemeral) (str "true")) _ n1 tt
          fine in
      let (who, known, e2) = from-done invalid_argument (pod_identity vc) _ n1 tt e1 in
      let (cfg, fits, e3) =
        from-done invalid_argument (accepted (parse_config calls.valid_subdomain vc who.namespace))
          _ n1 tt e2 in
      let (token, found, e4) =
        from-done failed_precondition (extract calls.unmarshal_tokens vc) _ n1 tt e3 in
      (
        (str_eq_iff (attribute vc key_ephemeral) (str "true")).0 inline,
        (
          who,
          known,
          (cfg, accepted-good (parse_config calls.valid_subdomain vc who.namespace) cfg fits),
          (token, found),
        ),
      )
