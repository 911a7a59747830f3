-- ===== src/Lease/Cluster/Fencing.antt =====
-- The fence of pkg/objectfs/commit.go, on a node whose manager is one of many.
use roommate_csi.Prelude.{ℕ, ◌≡◌, ◌≢◌, ◌&&◌, true, false, some, List, arith, ◌∙◌, ap}
use roommate_csi.Prelude.Bytes.{Str}
use roommate_csi.Map.{Map}
use roommate_csi.State.{err, lease_lost, State, Env, Slice}
use roommate_csi.Commit.{is_empty, fenced, healthy, commit}
use roommate_csi.Commit.Outcome.{commit-fenced}
use roommate_csi.Lease.Cluster.{Cluster, is_healthy, Reach, KeepsUp}
use roommate_csi.Lease.Cluster.Facts.{Setup, Inv}
use roommate_csi.Lease.Cluster.Exclusion.{exclusion}

unhealthy_fenced :
    {W : Type 0} (node : State W) (lease : ℕ)
    → is_healthy (node.shared.managers lease) ≡ false
    → fenced (some lease) node ≡ true
unfolding fenced healthy
unhealthy_fenced node lease idle = ground arith

module _ (p : Setup) where
  -- While the lease of manager `i` counts as healthy, a change of something under the lease of another
  -- manager `j` is refused on its node: no request is sent and nothing changes. This is so in every
  -- state that is reached from a state with the invariant, if the last accepted writes of both
  -- managers were stamped no longer than a lease's duration ago.
  pub commit_excluded :
      {s t : Cluster}
      → Inv p s
      → Reach p.offset s t
      → (i j : ℕ) → i ≢ j
      → KeepsUp t i
      → KeepsUp t j
      → is_healthy (t.managers i) ≡ true
      → {W : Type 0} (env : Env W) (node : State W) (lease : ℕ)
      → node.shared.managers lease ≡ t.managers j
      → (set : Map Slice) (del : List Str) → is_empty set && is_empty del ≡ false
      → commit env (some lease) set del node ≡ (err lease_lost, node)
  commit_excluded {s} {t} inv run i j apart up_i up_j first env node lease same set del
        some_change =
      let idle = exclusion p inv run i j apart up_i up_j first in
      commit-fenced env node (some lease) set del some_change
        (unhealthy_fenced node lease (ap is_healthy same ∙ idle))
