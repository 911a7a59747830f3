-- ===== src/Lease/Cluster/Moves.antt =====
-- The steps of the cluster that leave the Lease alone keep the invariant.
use roommate_csi.Prelude.{
  ℕ, suc, ◌≡◌, true, false, Option, none, some, refl, arith, subst, update, update-all, AllSome,
  AllSome-map,
}
use roommate_csi.State.{Lease, Manager}
use roommate_csi.Lease.Cluster.{Copy, Cluster}
use roommate_csi.Lease.Cluster.Facts.{Setup, IsPast, IsCurrent, IsOverdue, IsOurs, Inv}

module _ (p : Setup) (s : Cluster) (inv : Inv p s) where
  IsPast-suc : (l : Lease) → IsPast p s.time l → IsPast p (suc s.time) l
  IsPast-suc l past j held = ((past j held).0, λ r e. omega (arith, (past j held).1 r e))

  IsCurrent-suc : (c : Copy) → IsCurrent p s c → IsCurrent p (record s { time = suc s.time }) c
  IsCurrent-suc (rev, l) (le, same, past) = (le, same, IsPast-suc l past)

  IsOverdue-suc : (i : ℕ) (l : Lease) → IsOverdue p s.time i l → IsOverdue p (suc s.time) i l
  IsOverdue-suc i l late j r other held e = omega (arith, late j r other held e)

  pub tick-Inv : Inv p (record s { time = suc s.time })
  tick-Inv = record {
    managers = inv.managers;
    dropped = inv.dropped;
    owner = λ i at e fresh live. inv.owner i at e (omega arith) live;
    past = AllSome-map s.lease IsPast-suc inv.past;
    reads = λ i. AllSome-map (s.reads i) IsCurrent-suc (inv.reads i);
    bids = λ i.
        AllSome-map (s.bids i) (λ c h. (IsCurrent-suc c h.0, IsOverdue-suc i c.1 h.1)) (inv.bids i);
    renewals = λ i. AllSome-map (s.renewals i) IsCurrent-suc (inv.renewals i);
    drops = λ i. AllSome-map (s.drops i) (λ c h. (IsCurrent-suc c h.0, h.1)) (inv.drops i);
  }

  taken-IsCurrent : (l : Lease) → s.lease ≡ some l → IsCurrent p s (s.revision, l)
  taken-IsCurrent l e = (omega arith, λ same. e, subst (AllSome (IsPast p s.time)) e inv.past)

  pub get-Inv :
      (i : ℕ) (l : Lease)
      → s.lease ≡ some l
      → Inv p (record s { reads = update s.reads i (some (s.revision, l)) })
  get-Inv i l e = record {
    managers = inv.managers;
    dropped = inv.dropped;
    owner = inv.owner;
    past = inv.past;
    reads =
        update-all s.reads i (some (s.revision, l)) (λ j. AllSome (IsCurrent p s))
          (taken-IsCurrent l e) inv.reads;
    bids = inv.bids;
    renewals = inv.renewals;
    drops = inv.drops;
  }

  pub renew_get-Inv :
      (i : ℕ) (l : Lease)
      → s.lease ≡ some l
      → Inv p (record s { renewals = update s.renewals i (some (s.revision, l)) })
  renew_get-Inv i l e = record {
    managers = inv.managers;
    dropped = inv.dropped;
    owner = inv.owner;
    past = inv.past;
    reads = inv.reads;
    bids = inv.bids;
    renewals =
        update-all s.renewals i (some (s.revision, l)) (λ j. AllSome (IsCurrent p s))
          (taken-IsCurrent l e) inv.renewals;
    drops = inv.drops;
  }

  pub drop_get-Inv :
      (i : ℕ) (l : Lease)
      → s.lease ≡ some l
      → s.released i ≡ true
      → Inv p (record s { drops = update s.drops i (some (s.revision, l)) })
  drop_get-Inv i l e gone = record {
    managers = inv.managers;
    dropped = inv.dropped;
    owner = inv.owner;
    past = inv.past;
    reads = inv.reads;
    bids = inv.bids;
    renewals = inv.renewals;
    drops =
        update-all s.drops i (some (s.revision, l))
          (λ j. AllSome (λ c. IsCurrent p s c × (s.released j ≡ true))) (taken-IsCurrent l e, gone)
          inv.drops;
  }

  pub manage-Inv :
      (i : ℕ) (m : Manager)
      → IsOurs p i m
      → (s.released i ≡ true → m.held ≡ false)
      → Inv p (record s { managers = update s.managers i m })
  manage-Inv i m ours gone = record {
    managers = update-all s.managers i m (IsOurs p) ours inv.managers;
    dropped =
        update-all s.managers i m (λ j x. s.released j ≡ true → x.held ≡ false) gone inv.dropped;
    owner = inv.owner;
    past = inv.past;
    reads = inv.reads;
    bids = inv.bids;
    renewals = inv.renewals;
    drops = inv.drops;
  }

  pub bid-Inv :
      (i : ℕ) (b : Option Copy)
      → AllSome (λ c. IsCurrent p s c × IsOverdue p s.time i c.1) b
      → Inv p (record s { reads = update s.reads i none; bids = update s.bids i b })
  bid-Inv i b late = record {
    managers = inv.managers;
    dropped = inv.dropped;
    owner = inv.owner;
    past = inv.past;
    reads = update-all s.reads i none (λ j. AllSome (IsCurrent p s)) tt inv.reads;
    bids =
        update-all s.bids i b (λ j. AllSome (λ c. IsCurrent p s c × IsOverdue p s.time j c.1)) late
          inv.bids;
    renewals = inv.renewals;
    drops = inv.drops;
  }

  pub gone-Inv :
      (i : ℕ)
      → (s.managers i).held ≡ false
      → Inv p (record s { released = update s.released i true })
  gone-Inv i idle = record {
    managers = inv.managers;
    dropped =
        update-all s.released i true (λ j b. b ≡ true → (s.managers j).held ≡ false) (λ _. idle)
          inv.dropped;
    owner = λ j at e fresh live. inv.owner j at e fresh (
        update-all s.released i true (λ k b. b ≡ false → s.released k ≡ false)
          (λ h. absurd (ground arith)) (λ k h. h) j live);
    past = inv.past;
    reads = inv.reads;
    bids = inv.bids;
    renewals = inv.renewals;
    drops = λ j.
        AllSome-map (s.drops j)
          (λ c h. (
            h.0,
            update-all s.released i true (λ k b. s.released k ≡ true → b ≡ true) (λ _. refl)
                (λ k e. e) j h.1,
          ))
          (inv.drops j);
  }

  -- A manager learns of its write.
  pub answered-Inv : (i : ℕ) → Inv p (record s { answers = update s.answers i none })
  answered-Inv i = record {
    managers = inv.managers;
    dropped = inv.dropped;
    owner = inv.owner;
    past = inv.past;
    reads = inv.reads;
    bids = inv.bids;
    renewals = inv.renewals;
    drops = inv.drops;
  }
