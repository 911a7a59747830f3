-- ===== src/Lease/Cluster.antt =====
-- Many lease managers, on nodes with clocks of their own, and the one Lease object that they contend
-- for: the requests of pkg/objectfs/lease.go interleaved in any order. The API server keeps a
-- revision, and refuses an update of an object that has changed since it was read. A write is a step
-- of its own, and the manager learns of it later or never. What a manager has read is kept apart for
-- an attempt, a renewal and a release, which run in goroutines of their own. A manager is released
-- once, when its open file is closed, and acquires neither afterwards nor while it holds its lease.
-- Nobody else writes the Lease.
pub mod Facts
pub mod Judging
pub mod Moves
pub mod Writes
pub mod Exclusion
pub mod Stalling
pub mod Fencing
pub mod Leaving
pub mod Tenure
use roommate_csi.Prelude.{
  ℕ, suc, ◌+◌, ◌≤◌, ◌≡◌, ◌&&◌, Bool, true, false, Option, none, some, update, if◌then◌else◌,
}
use roommate_csi.State.{Lease, Manager}
use roommate_csi.Lease.{claimable, fresh_lease, taken_over, is_holder}

-- A copy of the Lease, with the revision that it was read at.
abbrev pub Copy : Type 0
Copy = ℕ × Lease

-- The accepted write of which a manager has not learned.
pub data Write : Type 0 where
  acquisition renewal : Write

pub record Cluster : Type 0 where
  pub time : ℕ
  pub revision : ℕ
  pub lease : Option Lease
  pub managers : ℕ → Manager
  pub released : ℕ → Bool
  pub reads : ℕ → Option Copy
  pub bids : ℕ → Option Copy
  pub renewals : ℕ → Option Copy
  pub drops : ℕ → Option Copy
  pub answers : ℕ → Option Write
  -- when the renew time of the last write of a manager was taken
  pub stamped_at : ℕ → Option ℕ

-- `Healthy`
abbrev pub is_healthy : Manager → Bool
is_healthy m = m.held && m.healthy

-- `startRenewal`
abbrev pub started : Manager → Manager
started m = if m.held then m else record m { held = true; healthy = true; renewing = true }

-- The write of manager `i` is accepted, and stamped at the time `at`.
abbrev pub written : Cluster → ℕ → Lease → Write → ℕ → Cluster
written s i l w at = record s {
  revision = suc s.revision;
  lease = some l;
  answers = update s.answers i (some w);
  stamped_at = update s.stamped_at i (some at);
}

-- The claimable copy is bid for.
abbrev pub bid_of : Bool → Copy → Option Copy
bid_of true c = some c
bid_of false c = none

module _ (offset : ℕ → ℕ) where
  -- The clock of the node of manager `i`.
  abbrev pub clock : ℕ → ℕ → ℕ
  clock i time = time + offset i

  abbrev pub judged : Cluster → ℕ → Copy → Bool × Manager
  judged s i (rev, l) = claimable (clock i s.time) (s.managers i) l

  pub data Step (s : Cluster) : Cluster → Type 0 where
    tick : Step s (record s { time = suc s.time })
    -- TryAcquire
    get :
        (i : ℕ) {l : Lease}
        → s.lease ≡ some l
        → (s.managers i).held ≡ false
        → Step s (record s { reads = update s.reads i (some (s.revision, l)) })
    judge :
        (i : ℕ) {c : Copy}
        → s.reads i ≡ some c
        → Step s (record s {
          managers = update s.managers i (judged s i c).1;
          reads = update s.reads i none;
          bids = update s.bids i (bid_of (judged s i c).0 c);
        })
    take_over :
        (i : ℕ) (at : ℕ) {rev : ℕ} {l : Lease}
        → s.bids i ≡ some (rev, l)
        → s.revision ≡ rev
        → (s.managers i).held ≡ false
        → s.released i ≡ false
        → at ≤ s.time
        → Step s (written s i (taken_over (clock i at) (s.managers i) l) acquisition at)
    create :
        (i : ℕ) (at : ℕ)
        → s.lease ≡ none
        → (s.managers i).held ≡ false
        → s.released i ≡ false
        → at ≤ s.time
        → Step s (written s i (fresh_lease (clock i at) (s.managers i)) acquisition at)
    start :
        (i : ℕ)
        → s.answers i ≡ some acquisition
        → s.released i ≡ false
        → Step s (record s {
          managers = update s.managers i (started (s.managers i));
          answers = update s.answers i none;
        })
    -- renewOnce
    renew_get :
        (i : ℕ) {l : Lease}
        → s.lease ≡ some l
        → Step s (record s { renewals = update s.renewals i (some (s.revision, l)) })
    renew :
        (i : ℕ) (at : ℕ) {rev : ℕ} {l : Lease}
        → s.renewals i ≡ some (rev, l)
        → is_holder (s.managers i) l.holder ≡ true
        → s.revision ≡ rev
        → at ≤ s.time
        → Step s (written s i (record l { renew_time = some (clock i at) }) renewal at)
    renewed :
        (i : ℕ)
        → s.answers i ≡ some renewal
        → Step s (record s {
          managers = update s.managers i (record (s.managers i) { healthy = true });
          answers = update s.answers i none;
        })
    renew_failed :
        (i : ℕ)
        → Step s (record s {
          managers = update s.managers i (record (s.managers i) { healthy = false });
        })
    -- Release
    release :
        (i : ℕ)
        → Step s (record s {
          managers =
              update s.managers i
                (record (s.managers i) { held = false; healthy = false; renewing = false });
          released = update s.released i true;
        })
    drop_get :
        (i : ℕ) {l : Lease}
        → s.lease ≡ some l
        → s.released i ≡ true
        → Step s (record s { drops = update s.drops i (some (s.revision, l)) })
    drop :
        (i : ℕ) {rev : ℕ} {l : Lease}
        → s.drops i ≡ some (rev, l)
        → is_holder (s.managers i) l.holder ≡ true
        → s.revision ≡ rev
        → Step s (record s {
          revision = suc s.revision;
          lease = some (record l { holder = none; renew_time = none });
        })

  -- The states that the steps lead to.
  pub data Reach (s : Cluster) : Cluster → Type 0 where
    here : Reach s s
    next : {t u : Cluster} → Reach s t → Step t u → Reach s u

-- A write of the manager was accepted, and the last one was stamped no longer than a lease's duration
-- ago.
abbrev pub KeepsUp : Cluster → ℕ → Type 0
KeepsUp s i = (at : ℕ) × (s.stamped_at i ≡ some at) × (s.time ≤ at + (s.managers i).duration)
