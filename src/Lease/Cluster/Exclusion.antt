-- ===== src/Lease/Cluster/Exclusion.antt =====
-- Two managers never count their lease as healthy at once, if their renewals keep up.
use roommate_csi.Prelude.{
  inl, inr, Bool-cases, ◌≢◌, false, ℕ, ◌≡◌, true, false, refl, ◌∙◌, ap, subst, Bool, update,
  ==-refl, arith, AllSome, some, none,
}
use roommate_csi.State.{Lease, Manager}
use roommate_csi.Lease.{claimable}
use roommate_csi.Lease.Cluster.{
  start, started, renewed, Copy, Cluster, is_healthy, clock, judged, bid_of, Step, tick, get, judge,
  take_over, create, renew_get, renew, renew_failed, release, drop_get, drop, Reach, here, next,
  KeepsUp,
}
use roommate_csi.Lease.Cluster.Facts.{IsOurs, Setup, IsCurrent, IsOverdue, Inv}
use roommate_csi.Lease.Cluster.Judging.{claimable-obs, claimable-IsLater, claimable-IsOverdue}
use roommate_csi.Lease.Cluster.Moves.{
  answered-Inv, tick-Inv, get-Inv, renew_get-Inv, drop_get-Inv, manage-Inv, bid-Inv, gone-Inv,
}
use roommate_csi.Lease.Cluster.Writes.{take_over-Inv, create-Inv, renew-Inv, drop-Inv}

started-IsOurs : (p : Setup) (i : ℕ) (m : Manager) → IsOurs p i m → IsOurs p i (started m)
started-IsOurs p i m h = elim (Bool-cases m.held) [ inl held ↦ rw held h | inr idle ↦ rw idle h ]

module _ (p : Setup) where
  bid_of_judged :
      (s : Cluster) (i : ℕ) (c : Copy) (b : Bool)
      → IsCurrent p s c
      → (b ≡ true → IsOverdue p s.time i c.1)
      → AllSome (λ c. IsCurrent p s c × IsOverdue p s.time i c.1) (bid_of b c)
  bid_of_judged s i c true current late = (current, late refl)
  bid_of_judged s i c false current late = tt

  judge-Inv :
      (s : Cluster) (i : ℕ) (c : Copy)
      → Inv p s
      → s.reads i ≡ some c
      → Inv p (record s {
        managers = update s.managers i (judged p.offset s i c).1;
        reads = update s.reads i none;
        bids = update s.bids i (bid_of (judged p.offset s i c).0 c);
      })
  judge-Inv s i (rev, l) inv e =
      let current = subst (AllSome (IsCurrent p s)) e (inv.reads i) in
      let (named, timed, later) = inv.managers i in
      let now = clock p.offset i s.time in
      let m = s.managers i in
      let keeps = claimable-obs now m l in
      let judged_inv =
        manage-Inv p s inv i (claimable now m l).1
          (
            ap (λ x. x.holder) keeps ∙ named,
            ap (λ x. x.duration) keeps ∙ timed,
            claimable-IsLater p i s.time m l named current.2 later,
          )
          (λ gone. ap (λ x. x.held) keeps ∙ inv.dropped i gone) in
      bid-Inv p (record s { managers = update s.managers i (claimable now m l).1 }) judged_inv i
        (bid_of (claimable now m l).0 (rev, l))
        (bid_of_judged s i (rev, l) (claimable now m l).0 current
          (claimable-IsOverdue p i s.time m l named current.2 later))

  -- Every step keeps the invariant.
  pub Step-Inv : {s t : Cluster} → Step p.offset s t → Inv p s → Inv p t
  Step-Inv {s} tick inv = tick-Inv p s inv
  Step-Inv {s} (get i {l} e idle) inv = get-Inv p s inv i l e
  Step-Inv {s} (judge i {c} e) inv = judge-Inv s i c inv e
  Step-Inv {s} (take_over i at {rev} {l} bid now idle live le) inv =
      take_over-Inv p s inv i at rev l bid now le
  Step-Inv {s} (create i at missing idle live le) inv = create-Inv p s inv i at missing le
  Step-Inv {s} (start i e live) inv =
      answered-Inv p _
        (manage-Inv p s inv i (started (s.managers i))
          (started-IsOurs p i (s.managers i) (inv.managers i)) (λ gone. absurd (ground arith)))
        i
  Step-Inv {s} (renew_get i {l} e) inv = renew_get-Inv p s inv i l e
  Step-Inv {s} (renew i at {rev} {l} got ours now le) inv =
      renew-Inv p s inv i at rev l got ours now le
  Step-Inv {s} (renewed i e) inv =
      answered-Inv p _
        (manage-Inv p s inv i (record (s.managers i) { healthy = true }) (inv.managers i)
          (inv.dropped i))
        i
  Step-Inv {s} (renew_failed i) inv =
      manage-Inv p s inv i (record (s.managers i) { healthy = false }) (inv.managers i)
        (inv.dropped i)
  Step-Inv {s} (release i) inv =
      gone-Inv p _
        (manage-Inv p s inv i
          (record (s.managers i) { held = false; healthy = false; renewing = false })
          (inv.managers i) (λ _. refl))
        i (rw (==-refl i) refl)
  Step-Inv {s} (drop_get i {l} e gone) inv = drop_get-Inv p s inv i l e gone
  Step-Inv {s} (drop i {rev} {l} got ours now) inv = drop-Inv p s inv i rev l got ours now

  pub Reach-Inv : {s t : Cluster} → Inv p s → Reach p.offset s t → Inv p t
  Reach-Inv inv here = inv
  Reach-Inv inv (next run step) = Step-Inv step (Reach-Inv inv run)

  healthy_owner :
      (s : Cluster) (i : ℕ)
      → Inv p s
      → KeepsUp s i
      → is_healthy (s.managers i) ≡ true
      → (l : Lease) × (s.lease ≡ some l) × (l.holder ≡ some (p.id i))
  healthy_owner s i inv (at, stamped, fresh) healthy =
      let timed = (inv.managers i).1 in
      let live : s.released i ≡ false = ground (arith, inv.dropped i) in
      let (l, stored, held, _) = inv.owner i at stamped (omega arith) live in (l, stored, held)

  -- Of two managers whose last accepted writes were stamped no longer than a lease's duration ago, at
  -- most one counts its lease as healthy, in every state that is reached from a state with the
  -- invariant, by any interleaving of the requests of all the managers, of their answers, some of
  -- which are lost, and of the ticks of the clocks.
  pub exclusion :
      {s t : Cluster}
      → Inv p s
      → Reach p.offset s t
      → (i j : ℕ) → i ≢ j
      → KeepsUp t i
      → KeepsUp t j
      → is_healthy (t.managers i) ≡ true
      → is_healthy (t.managers j) ≡ false
  exclusion {s} {t} inv run i j apart up_i up_j first =
      let after = Reach-Inv inv run in
      let (l, stored, held) = healthy_owner t i after up_i first in
      elim (Bool-cases (is_healthy (t.managers j))) [
        | inl other ↦
            let (l', stored', held') = healthy_owner t j after up_j other in
            absurd (apart (p.id_inj i j (ground arith)))
        | inr idle ↦ idle
      ]
