-- ===== src/Lease/Cluster/Facts.antt =====
-- What is true of the Lease, of the copies of it and of the managers, in every state of a run.
use roommate_csi.Prelude.{
  ℕ, ◌+◌, ◌/◌, ◌≤◌, ◌<◌, ◌≡◌, ◌≢◌, true, false, Option, none, some, [], AllSome,
}
use roommate_csi.Prelude.Bytes.{Str}
use roommate_csi.Prelude.Int.{ℤ, pos, int32}
use roommate_csi.State.{Lease, Observation, Manager}
use roommate_csi.Cache.{second}
use roommate_csi.Lease.{in_seconds}
use roommate_csi.Lease.Cluster.{Copy, Cluster}

-- The managers under their holder identities, with clocks that differ by fixed offsets, and a lease
-- duration of a whole number of seconds.
pub record Setup : Type 0 where
  pub offset : ℕ → ℕ
  pub id : ℕ → Str
  pub duration : ℕ
  pub id_inj : (i j : ℕ) → id i ≡ id j → i ≡ j
  pub id-ne-nil : (i : ℕ) → id i ≢ []
  pub whole : in_seconds (int32 (duration / second)) ≡ pos duration

module _ (p : Setup) where
  open p use {offset, id, duration}

  -- The duration that a lease of ours carries.
  abbrev pub secs : ℤ
  secs = int32 (duration / second)

  -- A lease that names one of the managers carries their duration, and was stamped in the past.
  abbrev pub IsPast : ℕ → Lease → Type 0
  IsPast time l =
      (j : ℕ)
      → l.holder ≡ some (id j)
      → (l.duration_seconds ≡ some secs) × ((r : ℕ) → l.renew_time ≡ some r → r ≤ time + offset j)

  abbrev pub IsCurrent : Cluster → Copy → Type 0
  IsCurrent s (rev, l) =
      (rev ≤ s.revision) × (s.revision ≡ rev → s.lease ≡ some l) × IsPast s.time l

  -- The Lease is that of manager `i`, under the stamp `at`.
  abbrev pub Owns : Option Lease → ℕ → ℕ → Type 0
  Owns lease i at =
      (l : Lease) × (lease ≡ some l)
      × (l.holder ≡ some (id i))
      × (l.renew_time ≡ some (at + offset i))

  -- An observation was made after the stamp that it shows.
  abbrev pub IsLater : ℕ → Option Observation → Type 0
  IsLater i none = Unit
  IsLater i (some o) = (j : ℕ) → o.holder ≡ id j → o.renew_time + offset i ≤ o.at + offset j

  -- Whoever else holds a lease that is bid for has not renewed it for a duration.
  abbrev pub IsOverdue : ℕ → ℕ → Lease → Type 0
  IsOverdue time i l =
      (j r : ℕ)
      → j ≢ i
      → l.holder ≡ some (id j)
      → l.renew_time ≡ some r
      → r + duration < time + offset j

  abbrev pub IsOurs : ℕ → Manager → Type 0
  IsOurs i m = (m.holder ≡ id i) × (m.duration ≡ duration) × IsLater i m.obs

  pub record Inv (s : Cluster) : Type 0 where
    pub managers : (i : ℕ) → IsOurs i (s.managers i)
    pub dropped : (i : ℕ) → s.released i ≡ true → (s.managers i).held ≡ false
    pub owner :
        (i at : ℕ)
        → s.stamped_at i ≡ some at
        → s.time ≤ at + duration
        → s.released i ≡ false
        → Owns s.lease i at
    pub past : AllSome (IsPast s.time) s.lease
    pub reads : (i : ℕ) → AllSome (IsCurrent s) (s.reads i)
    pub bids : (i : ℕ) → AllSome (λ c. IsCurrent s c × IsOverdue s.time i c.1) (s.bids i)
    pub renewals : (i : ℕ) → AllSome (IsCurrent s) (s.renewals i)
    pub drops : (i : ℕ) → AllSome (λ c. IsCurrent s c × (s.released i ≡ true)) (s.drops i)
