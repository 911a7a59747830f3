-- ===== src/Commit.antt =====
-- pkg/objectfs/commit.go: a handle's changes as one merge patch. A nil lease is `none`; a lease is
-- named by the number of its manager.
pub mod Outcome
use roommate_csi.Prelude.{
  ℕ, Bool, true, false, not, ◌&&◌, Option, none, some, List, [], ◌∷◌, length, ltb, if◌then◌else◌,
}
use roommate_csi.Prelude.Bytes.{Bytes, Str}
use roommate_csi.Map.{Map}
use roommate_csi.Snapshot.{Snapshot, max_object_bytes, size, with_changes}
use roommate_csi.State.{
  Result, ok, err, too_large, lease_lost, State, Env, patch_object, Slice, contents,
}
use roommate_csi.State.Action.{Act, return, ◌>>=◌, ◌>>◌, on_ok, modify, request}
use roommate_csi.Cache.{current, set}

abbrev pub is_empty {ℓ} : {A : Type ℓ} → List A → Bool
is_empty [] = true
is_empty (x ∷ xs) = false

module _ {W : Type 0} where
  -- `LeaseManager.Healthy`
  unfoldable pub healthy : ℕ → State W → Bool
  healthy i s = (s.shared.managers i).held && (s.shared.managers i).healthy

unfoldable pub any_too_large : Map Bytes → Bool
any_too_large [] = false
any_too_large ((k, v) ∷ set) =
    let rest = any_too_large set in if ltb max_object_bytes (length v) then true else rest

-- The size check against the cached snapshot.
unfoldable pub oversize : Option Snapshot → Map Bytes → List Str → Bool
unfolding any_too_large
oversize none set del = any_too_large set
oversize (some cur) set del = ltb max_object_bytes (size (with_changes cur set del))

-- `lease != nil && !lease.Healthy()`
unfoldable pub fenced : {W : Type 0} → Option ℕ → State W → Bool
unfolding healthy
fenced none s = false
fenced (some i) s = not (healthy i s)

module _ {W : Type 0} (env : Env W) where
  -- Read-your-own-writes: the change is laid over whatever is cached by now.
  unfoldable pub apply_locally : Map Bytes → List Str → Option Snapshot → State W → State W
  unfolding set
  apply_locally set_keys del none s = s
  apply_locally set_keys del (some cur) s = set env (some (with_changes cur set_keys del)) s

  unfoldable pub send_patch : Map Slice → List Str → Act W (Result (Unit {0}))
  unfolding apply_locally current request
  send_patch set_keys del = do
    r ← request (patch_object set_keys del) (env.object_patch set_keys del)
    on_ok r
        λ _. do modify (λ s. apply_locally (contents set_keys) del (current s) s); return (ok tt)

  unfoldable pub commit : Option ℕ → Map Slice → List Str → Act W (Result (Unit {0}))
  unfolding send_patch current fenced oversize
  commit lease set_keys del s =
      if is_empty set_keys && is_empty del
      then (ok tt, s)
      else if fenced lease s
      then (err lease_lost, s)
      else if oversize (current s) (contents set_keys) del
      then (err too_large, s)
      else send_patch set_keys del s
