-- ===== src/Tests/ClusterRuns.antt =====
-- The theorems on many managers, at concrete runs.
use roommate_csi.Prelude.{
  ℕ, zero, suc, ◌*◌, ◌/◌, ◌≡◌, ◌≢◌, refl, true, false, none, some, [], ◌∷◌, arith, ap, update,
}
use roommate_csi.Prelude.Bytes.{Str, str, str_eq}
use roommate_csi.Prelude.Int.{pos, int32}
use roommate_csi.State.{err, lease_lost, State, Lease, Manager, Slice}
use roommate_csi.Cache.{second}
use roommate_csi.Lease.{
  claimable, new_manager, fresh_lease, taken_over, in_seconds, lease_duration,
  default_lease_duration,
}
use roommate_csi.Lease.Cluster
use roommate_csi.Lease.Cluster.{
  Cluster, is_healthy, clock, started, written, judged, bid_of, acquisition, Reach, here, next,
  create, start, release, drop_get, drop, get, take_over, KeepsUp,
}
use roommate_csi.Lease.Cluster.Facts.{Setup, Inv}
use roommate_csi.Lease.Cluster.Exclusion.{Reach-Inv, exclusion}
use roommate_csi.Lease.Cluster.Stalling.{overtaken}
use roommate_csi.Lease.Cluster.Leaving.{left_behind}
use roommate_csi.Lease.Cluster.Fencing.{commit_excluded}
use roommate_csi.Commit.{commit}
use roommate_csi.Map.{Map}
use roommate_csi.Tests.World.{World, env, start as calm_state}

-- One letter for node zero, two for node one, and so on.
abbrev letters : ℕ → Str
letters zero = b'a' ∷ []
letters (suc n) = b'a' ∷ letters n

pub letters_inj : (i j : ℕ) → letters i ≡ letters j → i ≡ j
letters_inj zero zero e = refl
letters_inj zero (suc zero) e = absurd (ground arith)
letters_inj zero (suc (suc j)) e = absurd (ground arith)
letters_inj (suc zero) zero e = absurd (ground arith)
letters_inj (suc (suc i)) zero e = absurd (ground arith)
letters_inj (suc i) (suc j) e = ap suc (letters_inj i j (ground arith))

pub letters-ne-nil : (i : ℕ) → letters i ≢ []
letters-ne-nil zero e = ground arith
letters-ne-nil (suc i) e = ground arith

pub in_seconds_whole :
    in_seconds (int32 (default_lease_duration / second)) ≡ pos default_lease_duration
unfolding in_seconds int32
in_seconds_whole = refl

abbrev pub nodes : Setup
nodes = record {
  offset = λ i. i * second;
  id = letters;
  duration = default_lease_duration;
  id_inj = letters_inj;
  id-ne-nil = letters-ne-nil;
  whole = in_seconds_whole;
}

abbrev idle : ℕ → Manager
idle i = new_manager (str "home") (str "lock") (letters i) (pos 0)

-- Nobody has asked for the lease yet.
abbrev pub quiet : Cluster
quiet = record {
  time = 1;
  revision = 0;
  lease = none;
  managers = idle;
  released = λ _. false;
  reads = λ _. none;
  bids = λ _. none;
  renewals = λ _. none;
  drops = λ _. none;
  answers = λ _. none;
  stamped_at = λ _. none;
}

pub quiet-Inv : Inv nodes quiet
unfolding new_manager lease_duration
quiet-Inv = record {
  managers = λ i. (refl, refl, tt);
  dropped = λ i gone. refl;
  owner = λ i at e fresh live. absurd (ground arith);
  past = tt;
  reads = λ i. tt;
  bids = λ i. tt;
  renewals = λ i. tt;
  drops = λ i. tt;
}

-- Manager two creates the lease, learns of it, and releases it.
abbrev first_lease : Lease
first_lease = fresh_lease (clock nodes.offset 2 1) (idle 2)

abbrev created : Cluster
created = written quiet 2 first_lease acquisition 1

abbrev held : Cluster
held = record created {
  managers = update created.managers 2 (started (created.managers 2));
  answers = update created.answers 2 none;
}

abbrev left : Cluster
left = record held {
  managers =
      update held.managers 2
        (record (held.managers 2) { held = false; healthy = false; renewing = false });
  released = update held.released 2 true;
}

abbrev leaving : Cluster
leaving = record left { drops = update left.drops 2 (some (1, first_lease)) }

abbrev free_lease : Lease
free_lease = record first_lease { holder = none; renew_time = none }

abbrev dropped : Cluster
dropped = record leaving { revision = 2; lease = some free_lease }

-- Manager one reads the lease, takes it over, and learns of it.
abbrev read : Cluster
read = record dropped { reads = update dropped.reads 1 (some (2, free_lease)) }

abbrev judges : Cluster
judges = record read {
  managers = update read.managers 1 (judged nodes.offset read 1 (2, free_lease)).1;
  reads = update read.reads 1 none;
  bids = update read.bids 1 (bid_of (judged nodes.offset read 1 (2, free_lease)).0 (2, free_lease));
}

abbrev taken : Cluster
taken =
    written judges 1 (taken_over (clock nodes.offset 1 1) (judges.managers 1) free_lease)
      acquisition 1

abbrev pub owned : Cluster
owned = record taken {
  managers = update taken.managers 1 (started (taken.managers 1));
  answers = update taken.answers 1 none;
}

releases : Reach nodes.offset quiet dropped
unfolding new_manager fresh_lease str_eq
releases =
    next
      (next
        (next (next (next here (create 2 1 refl refl refl (omega arith))) (start 2 refl refl))
          (release 2))
        (drop_get 2 refl refl))
      (drop 2 refl refl refl)

pub owns : Reach nodes.offset quiet owned
unfolding claimable new_manager fresh_lease
owns =
    next
      (next (next (next releases (get 1 refl refl)) (Cluster.judge 1 refl))
        (take_over 1 1 refl refl refl refl (omega arith)))
      (start 1 refl refl)

timed : (i : ℕ) → (owned.managers i).duration ≡ default_lease_duration
timed i = ((Reach-Inv nodes quiet-Inv owns).managers i).1

pub one-KeepsUp : KeepsUp owned 1
one-KeepsUp = (1, refl, let d = timed 1 in omega arith)

two-KeepsUp : KeepsUp owned 2
two-KeepsUp = (1, refl, let d = timed 2 in omega arith)

exclusion_example : is_healthy (owned.managers 2) ≡ false
unfolding new_manager claimable fresh_lease
exclusion_example = exclusion nodes quiet-Inv owns 1 2 (omega arith) one-KeepsUp two-KeepsUp refl

overtaken_example :
    (t : Cluster) × Reach nodes.offset owned t
    × (is_healthy (t.managers 1) ≡ true)
    × (is_healthy (t.managers 3) ≡ true)
    × (t.released 3 ≡ false)
unfolding new_manager claimable fresh_lease
overtaken_example =
    overtaken nodes owned 1 3 (Reach-Inv nodes quiet-Inv owns) one-KeepsUp refl (omega arith) refl
      refl

-- The node of manager two, which is the first on that node.
abbrev node : State World
node = record calm_state { shared = record calm_state.shared { managers = λ k. owned.managers 2 } }

abbrev change : Map Slice
change = (str "a", some (str "x")) ∷ []

commit_excluded_example : commit env (some 0) change [] node ≡ (err lease_lost, node)
unfolding new_manager claimable fresh_lease
commit_excluded_example =
    commit_excluded nodes quiet-Inv owns 1 2 (omega arith) one-KeepsUp two-KeepsUp refl env node 0
      refl change [] refl

left_behind_example :
    (t : Cluster) × (c : Cluster.Copy) × (l : Lease) × Reach nodes.offset owned t
    × (t.released 1 ≡ true)
    × (t.drops 1 ≡ some c)
    × (t.revision ≢ c.0)
    × (t.lease ≡ some l)
    × (l.holder ≡ some (letters 1))
unfolding new_manager claimable fresh_lease
left_behind_example = left_behind nodes owned 1 (Reach-Inv nodes quiet-Inv owns) one-KeepsUp refl
