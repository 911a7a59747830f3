-- ===== src/Lease/Cluster/Tenure.antt =====
-- A Lease comes to name a manager by the manager's own acquisition only: as long as the manager holds
-- its lease, a Lease that names it has named it all the time.
use roommate_csi.Prelude.{
  ◌==◌, if◌then◌else◌, ℕ, ◌≡◌, true, false, Option, some, refl, arith, ap, subst, ◌∙◌, update,
  update-all, Bool-cases, inl, inr, AllSome,
}
use roommate_csi.State.{Lease, Manager}
use roommate_csi.Lease.{taken_over, fresh_lease}
use roommate_csi.Lease.Cluster.{
  Copy, Cluster, started, clock, judged, Step, tick, get, judge, take_over, create, start,
  renew_get, renew, renewed, renew_failed, release, drop_get, drop,
}
use roommate_csi.Lease.Cluster.Facts.{Setup, IsCurrent, Inv}
use roommate_csi.Lease.Cluster.Judging.{claimable-obs}

module _ (p : Setup) where
  abbrev pub Names : Option Lease → ℕ → Type 0
  Names lease i = (l : Lease) × (lease ≡ some l) × (l.holder ≡ some (p.id i))

  -- Manager `i` goes on holding its lease.
  abbrev pub Holds : Cluster → Cluster → ℕ → Type 0
  Holds s t i =
      (s.released i ≡ false) × ((t.managers i).held ≡ true) × (Names t.lease i → Names s.lease i)

  -- A manager that is not released has not been released before.
  pub Step-live :
      (s : Cluster) {t : Cluster} (i : ℕ)
      → Step p.offset s t
      → t.released i ≡ false
      → s.released i ≡ false
  Step-live s i tick live = live
  Step-live s i (get j {l} e idle) live = live
  Step-live s i (judge j {c} e) live = live
  Step-live s i (take_over j at {rev} {l} bid now idle live_j le) live = live
  Step-live s i (create j at missing idle live_j le) live = live
  Step-live s i (start j e live_j) live = live
  Step-live s i (renew_get j {l} e) live = live
  Step-live s i (renew j at {rev} {l} got ours now le) live = live
  Step-live s i (renewed j e) live = live
  Step-live s i (renew_failed j) live = live
  Step-live s i (release j) live = ground arith
  Step-live s i (drop_get j {l} e gone) live = live
  Step-live s i (drop j {rev} {l} got ours now) live = live

  module _ (s : Cluster) (inv : Inv p s) (i : ℕ) (holds : (s.managers i).held ≡ true) where
    -- The managers change, and the Lease does not.
    held_on :
        (j : ℕ) (m : Manager)
        → ((s.managers j).held ≡ true → m.held ≡ true)
        → (update s.managers j m i).held ≡ true
    held_on j m keeps =
        update-all s.managers j m (λ k x. (s.managers k).held ≡ true → x.held ≡ true) keeps
          (λ k h. h) i holds

    judged_held : (j : ℕ) (c : Copy) → (judged p.offset s j c).1.held ≡ (s.managers j).held
    judged_held j (rev, l) =
        ap (λ x. x.held) (claimable-obs (clock p.offset j s.time) (s.managers j) l)

    started_held : (m : Manager) → (started m).held ≡ true
    started_held m = ground arith

    other_holder :
        (j : ℕ) (l : Lease)
        → (s.managers j).held ≡ false
        → l.holder ≡ some (s.managers j).holder
        → Names (some l) i
        → Names s.lease i
    other_holder j l idle named (l', e, held) =
        let (ours, _, _) = inv.managers j in
        let same = p.id_inj j i (ground arith) in
        absurd (ground (arith, subst (λ k. (s.managers k).held ≡ false) same idle))

    renewed-Names :
        (j rev : ℕ) (l l' : Lease) {r : Option ℕ}
        → s.renewals j ≡ some (rev, l)
        → s.revision ≡ rev
        → some (record l { renew_time = r }) ≡ some l'
        → l'.holder ≡ some (p.id i)
        → Names s.lease i
    renewed-Names j rev l l' {r} got now e held =
        let (_, same, _) = subst (AllSome (IsCurrent p s)) got (inv.renewals j) in
        (l, same now, ground arith)

    pub Step-Holds : {t : Cluster} → Step p.offset s t → t.released i ≡ false → Holds s t i
    unfolding taken_over fresh_lease
    Step-Holds tick live = (live, holds, λ n. n)
    Step-Holds (get j {l} e idle) live = (live, holds, λ n. n)
    Step-Holds (judge j {c} e) live = (live, held_on j _ (λ h. judged_held j c ∙ h), λ n. n)
    Step-Holds (take_over j at {rev} {l} bid now idle live_j le) live =
        (live, holds, other_holder j (taken_over (clock p.offset j at) (s.managers j) l) idle refl)
    Step-Holds (create j at missing idle live_j le) live =
        (live, holds, other_holder j (fresh_lease (clock p.offset j at) (s.managers j)) idle refl)
    Step-Holds (start j e live_j) live =
        (live, held_on j _ (λ h. started_held (s.managers j)), λ n. n)
    Step-Holds (renew_get j {l} e) live = (live, holds, λ n. n)
    Step-Holds (renew j at {rev} {l} got ours now le) live =
        (live, holds, λ (l', e, held). renewed-Names j rev l l' got now e held)
    Step-Holds (renewed j e) live = (live, held_on j _ (λ h. h), λ n. n)
    Step-Holds (renew_failed j) live = (live, held_on j _ (λ h. h), λ n. n)
    Step-Holds (release j) live = elim (Bool-cases (i == j)) [
      | inl own ↦ absurd (ground arith)
      | inr apart ↦ (
        subst (λ b. (if b then true else s.released i) ≡ false) apart live,
        rw apart holds,
        λ n. n,
      )
    ]
    Step-Holds (drop_get j {l} e gone) live = (live, holds, λ n. n)
    Step-Holds (drop j {rev} {l} got ours now) live =
        (live, holds, λ (l', e, held). absurd (ground arith))
