-- ===== src/Commit/Outcome.antt =====
-- What `Commit` of pkg/objectfs/commit.go does on every branch.
use roommate_csi.Prelude.{
  ℕ, ◌≤◌, ◌≡◌, ◌↔◌, refl, none, [], length, ◌⊎◌, ◌&&◌, true, false, Option, some, List, ◌∷◌, arith,
}
use roommate_csi.Prelude.Bytes.{Bytes, Str}
use roommate_csi.Number.{parse_uint}
use roommate_csi.Map.{Map, IsDistinct}
use roommate_csi.Snapshot.{Snapshot, get, max_object_bytes, size, with_changes}
use roommate_csi.Snapshot.Content.{merged, get-with_changes}
use roommate_csi.State.{ok, err, lease_lost, State, Env, patch_object, Slice, contents}
use roommate_csi.Cache.{current, set_from_watch, snap_of}
use roommate_csi.Commit.{is_empty, fenced, oversize, any_too_large, healthy, commit}

-- The lease is held, and its last renewal has not failed.
abbrev pub MayWrite : {W : Type 0} → State W → Option ℕ → Type 0
MayWrite s none = Unit
MayWrite s (some i) = ((s.shared.managers i).held ≡ true) × ((s.shared.managers i).healthy ≡ true)

abbrev pub AllWithin : Map Bytes → Type 0
AllWithin [] = Unit
AllWithin ((k, v) ∷ set) = (length v ≤ max_object_bytes) × AllWithin set

abbrev pub Fits : Map Bytes → List Str → Option Snapshot → Type 0
Fits set del none = AllWithin set
Fits set del (some cur) = size (with_changes cur set del) ≤ max_object_bytes

fenced_iff :
    {W : Type 0} (s : State W) (lease : Option ℕ) → (fenced lease s ≡ false) ↔ MayWrite s lease
unfolding fenced healthy
fenced_iff s none = (λ e. tt, λ u. refl)
fenced_iff s (some i) = (λ e. (ground arith, ground arith), λ (held, healthy). ground arith)

any_too_large_iff : (set : Map Bytes) → (any_too_large set ≡ false) ↔ AllWithin set
unfolding any_too_large
any_too_large_iff [] = (λ e. tt, λ u. refl)
any_too_large_iff ((k, v) ∷ set) = (
  λ e. (ground arith, (any_too_large_iff set).0 (ground arith)),
  λ (fits, others). let rest = (any_too_large_iff set).1 others in ground arith,
)

oversize_iff :
    (set : Map Bytes) (del : List Str) (cur : Option Snapshot)
    → (oversize cur set del ≡ false) ↔ Fits set del cur
unfolding oversize
oversize_iff set del none = any_too_large_iff set
oversize_iff set del (some cur) = (λ e. ground arith, λ fits. ground arith)

module _ {W : Type 0} (env : Env W) (s : State W) (lease : Option ℕ) (set : Map Slice)
    (del : List Str) where
  -- A change of something under a lease whose renewal fails, or which is not held, is refused: no
  -- request is sent and nothing changes.
  pub commit-fenced :
      is_empty set && is_empty del ≡ false
      → fenced lease s ≡ true
      → commit env lease set del s ≡ (err lease_lost, s)
  unfolding commit
  commit-fenced some_change lost = ground arith

  pub requests-commit_ok :
      is_empty set && is_empty del ≡ false
      → (commit env lease set del s).0 ≡ ok tt
      → (commit env lease set del s).1.requests ≡ patch_object set del ∷ s.requests
  unfolding commit
  requests-commit_ok some_change done = ground arith

  commit_ok_parts :
      is_empty set && is_empty del ≡ false
      → (commit env lease set del s).0 ≡ ok tt
      → (fenced lease s ≡ false)
        × (oversize (current s) (contents set) del ≡ false)
        × ((env.object_patch set del s.shared).0 ≡ ok tt)
  unfolding commit
  commit_ok_parts some_change done = (ground arith, ground arith, ground arith)

  commit_parts_ok :
      is_empty set && is_empty del ≡ false
      → fenced lease s ≡ false
      → oversize (current s) (contents set) del ≡ false
      → (env.object_patch set del s.shared).0 ≡ ok tt
      → (commit env lease set del s).0 ≡ ok tt
  unfolding commit
  commit_parts_ok some_change clear small sent = ground arith

  -- A change of something succeeds exactly if its lease, if it has one, is held and its last renewal
  -- has not failed, the change fits, and the API server accepts the patch. It fits if the cached
  -- snapshot, with the change laid over it, has at most 2^20 bytes; where nothing is cached, if none of
  -- the values is longer than that. Then it has sent one merge patch of exactly the change,
  -- and no other request.
  pub commit_succeeds :
      is_empty set && is_empty del ≡ false
      → ((commit env lease set del s).0 ≡ ok tt ↔ (
          MayWrite s lease
          × Fits (contents set) del (current s)
          × ((env.object_patch set del s.shared).0 ≡ ok tt)))
        × ((commit env lease set del s).0 ≡ ok tt
            → (commit env lease set del s).1.requests ≡ patch_object set del ∷ s.requests)
  commit_succeeds some_change = (
    (
      λ done.
          let (clear, small, sent) = commit_ok_parts some_change done in
          (
            (fenced_iff s lease).0 clear,
            (oversize_iff (contents set) del (current s)).0 small,
            sent,
          ),
      λ (may, fit, sent).
          commit_parts_ok some_change ((fenced_iff s lease).1 may)
            ((oversize_iff (contents set) del (current s)).1 fit) sent,
    ),
    requests-commit_ok some_change,
  )

  -- The handles, and the managers, are those at the start or those that the patch left.
  pub handles-commit :
      ((commit env lease set del s).1.handles ≡ s.handles)
      ⊎ ((commit env lease set del s).1.handles ≡ (env.object_patch set del s.shared).1.handles)
  unfolding commit
  handles-commit = ground arith

  pub handles-commit_ok :
      is_empty set && is_empty del ≡ false
      → (commit env lease set del s).0 ≡ ok tt
      → (commit env lease set del s).1.handles ≡ (env.object_patch set del s.shared).1.handles
  unfolding commit
  handles-commit_ok some_change done = ground arith

  pub requests-commit :
      ((commit env lease set del s).1.requests ≡ s.requests)
      ⊎ ((commit env lease set del s).1.requests ≡ patch_object set del ∷ s.requests)
  unfolding commit
  requests-commit = ground arith

  -- While the patch was under way the cache came to hold `cur`. Then a commit that succeeded leaves
  -- a snapshot in which every key holds what the merge patch leaves there over `cur`; and if `cur`
  -- is what the size check saw, that snapshot is within the ceiling.
  pub commit_reads_own_writes :
      (cur : Snapshot)
      → is_empty set && is_empty del ≡ false
      → IsDistinct (contents set)
      → (commit env lease set del s).0 ≡ ok tt
      → snap_of (env.object_patch set del s.shared).1.cur ≡ some cur
      → (view : Snapshot) × (current (commit env lease set del s).1 ≡ some view)
        × ((k : Str) → get view k ≡ merged (contents set) del k (get cur k))
        × (current s ≡ some cur → size view ≤ max_object_bytes)
  unfolding commit current
  commit_reads_own_writes cur some_change d done held = (
    with_changes cur (contents set) del,
    ground arith,
    λ k. get-with_changes cur (contents set) del k d,
    λ same. ground arith,
  )

  -- The snapshot that a commit leaves has no version, so the next watch event is installed whatever
  -- its own version, also one that is older than the commit.
  pub commit-set_from_watch :
      (cur event : Snapshot)
      → is_empty set && is_empty del ≡ false
      → (commit env lease set del s).0 ≡ ok tt
      → snap_of (env.object_patch set del s.shared).1.cur ≡ some cur
      → current (set_from_watch env (some event) (commit env lease set del s).1) ≡ some event
  unfolding commit current set_from_watch with_changes parse_uint
  commit-set_from_watch cur event some_change done held = ground arith
