-- ===== src/Tests/LeaseRuns.antt =====
-- The theorems on leases, at concrete inputs.
use roommate_csi.Prelude.{
  ℕ, zero, suc, ◌*◌, ◌<◌, ◌≤◌, ◌-◌, ◌≡◌, refl, true, some, List, [], ◌∷◌, arith,
}
use roommate_csi.Prelude.Bytes.{str, str_eq}
use roommate_csi.Prelude.Int.{pos, exceeds}
use roommate_csi.State.{Lease, Shared, State}
use roommate_csi.Cache.{second}
use roommate_csi.Commit.{fenced}
use roommate_csi.Lease.{
  claimable, term, first_seen, read_lease, attempt, try_acquire, acquire, renew_round,
}
use roommate_csi.Lease.Claim.{rival_of, observing, Silent, claimable_waits}
use roommate_csi.Lease.Attempt.{Writes, attempt-Writes}
use roommate_csi.Lease.Renewal.{fenced-renew_round}
use roommate_csi.Lease.Wait.{Ended, acquire-Ended}
use roommate_csi.Tests.World.{World, env, start, idle_manager, nap, foreign, contended}

abbrev sightings : List (ℕ × Lease)
sightings = (6 * second, foreign) ∷ (1 * second, foreign) ∷ []

-- Seen at one second, the lease is taken at seventeen.
claimable_waits_example :
    (at : ℕ) × Silent idle_manager (str "other:1") 10 at sightings
    × (exceeds (17 * second - at) (term (observing idle_manager sightings) (some (pos 15))) ≡ true)
unfolding rival_of observing claimable str_eq first_seen term
claimable_waits_example =
    claimable_waits idle_manager sightings (17 * second) foreign (str "other:1") 10 refl refl refl

attempt-Writes_example :
    Writes env 1
      (read_lease env 1 start).0
      (read_lease env 1 start).1
      (attempt env 1 start).1.requests
attempt-Writes_example = (attempt-Writes env 1 start).1

abbrev shared_start : State World
shared_start = record start {
  shared = record start.shared {
    acquiring = true;
    managers = λ i. record (start.managers i) { has_local = true };
  };
}

abbrev patience : Shared World → ℕ
patience sh = sh.world.sleeps

naps : (n : ℕ) (sh : Shared World) → (nap n sh).0 ≡ true → (nap n sh).1.world.sleeps < n
naps zero sh slept = ground arith
naps (suc n) sh slept = omega arith

tries : (s : State World) → patience (try_acquire env 1 s).1.shared ≤ patience s.shared
unfolding try_acquire attempt
tries s = ground arith

acquire-Ended_example : Ended 1 (acquire env 3 1 contended)
acquire-Ended_example =
    acquire-Ended env 1 patience tries (λ n h slept. naps h.world.sleeps h slept) 3 contended
      (omega arith)

abbrev holding : State World
holding = record contended {
  shared = record contended.shared {
    managers = λ i. record (start.managers i) { held = true; healthy = true; renewing = true };
  };
}

-- The other holder has taken the lease, so a commit after this round is fenced.
fenced-renew_round_example : fenced (some 1) (renew_round env 1 holding) ≡ true
unfolding read_lease str_eq
fenced-renew_round_example = (fenced-renew_round env 1 holding).1 foreign refl refl
