-- ===== src/Lease/Cluster/Writes.antt =====
-- The writes of the Lease keep the invariant.
use roommate_csi.Prelude.{
  some_inj, update-others, ℕ, suc, ◌+◌, ◌≤◌, ◌≡◌, ◌≢◌, ◌/◌, true, false, Option, none, some, refl,
  arith, ◌∙◌, ap, sym, subst, AllSome, AllSome-map,
}
use roommate_csi.Prelude.Bytes.{Str, str_eq_iff}
use roommate_csi.Prelude.Int.{int32}
use roommate_csi.Cache.{second}
use roommate_csi.State.{Lease, Manager}
use roommate_csi.Lease.{fresh_lease, taken_over, is_holder}
use roommate_csi.Lease.Cluster.{Write, acquisition, renewal, Copy, Cluster, written, clock}
use roommate_csi.Lease.Cluster.Facts.{Setup, IsPast, IsCurrent, Owns, IsOverdue, Inv}

module _ (p : Setup) (s : Cluster) (inv : Inv p s) where
  -- A copy of before is out of date after a write.
  module _ (t : Cluster) (later : t.revision ≡ suc s.revision) (same : t.time ≡ s.time) where
    IsCurrent-written : (c : Copy) → IsCurrent p s c → IsCurrent p t c
    IsCurrent-written (rev, l) (le, _, past) =
        (omega arith, λ e. absurd (omega arith), subst (λ x. IsPast p x l) (sym same) past)

  written-Inv :
      (i : ℕ) (l : Lease) (w : Write) (at : ℕ)
      → l.holder ≡ some (p.id i)
      → l.renew_time ≡ some (at + p.offset i)
      → IsPast p s.time l
      → ((j at' : ℕ)
          → j ≢ i
          → s.stamped_at j ≡ some at'
          → s.time ≤ at' + p.duration
          → s.released j ≢ false)
      → Inv p (written s i l w at)
  written-Inv i l w at held stamped past alone = record {
    managers = inv.managers;
    dropped = inv.dropped;
    owner =
        update-others s.stamped_at i (some at)
          (λ j o.
            (at' : ℕ)
            → o ≡ some at'
            → s.time ≤ at' + p.duration
            → s.released j ≡ false
            → Owns p (some l) j at')
          (λ at' e fresh live.
            (l, refl, held, stamped ∙ ap (λ x. some (x + p.offset i)) (some_inj.0 e)))
          λ j other at' e fresh live. absurd (alone j at' other e fresh live);
    past = past;
    reads = λ j. AllSome-map (s.reads j) current (inv.reads j);
    bids = λ j. AllSome-map (s.bids j) (λ c h. (current c h.0, h.1)) (inv.bids j);
    renewals = λ j. AllSome-map (s.renewals j) current (inv.renewals j);
    drops = λ j. AllSome-map (s.drops j) (λ c h. (current c h.0, h.1)) (inv.drops j);
  }
    where
      current : (c : Copy) → IsCurrent p s c → IsCurrent p (written s i l w at) c
      current = IsCurrent-written (written s i l w at) refl refl

  -- A copy that is up to date shows the owner of the Lease.
  copy_owner :
      (c : Copy) (j at : ℕ)
      → IsCurrent p s c
      → s.revision ≡ c.0
      → s.stamped_at j ≡ some at
      → s.time ≤ at + p.duration
      → s.released j ≡ false
      → (c.1.holder ≡ some (p.id j)) × (c.1.renew_time ≡ some (at + p.offset j))
  copy_owner (rev, l) j at (_, same, _) now e fresh live =
      let (l', stored, held, stamped) = inv.owner j at e fresh live in
      let eq : l' ≡ l = some_inj.0 (sym stored ∙ same now) in
      (sym (ap (λ x. x.holder) eq) ∙ held, sym (ap (λ x. x.renew_time) eq) ∙ stamped)

  is_holder-eq : (m : Manager) (h : Option Str) → is_holder m h ≡ true → h ≡ some m.holder
  is_holder-eq m none e = ground arith
  is_holder-eq m (some h) e = ground (arith, str_eq_iff h m.holder)

  fresh_lease-IsPast :
      (i at : ℕ) → at ≤ s.time → IsPast p s.time (fresh_lease (clock p.offset i at) (s.managers i))
  unfolding fresh_lease
  fresh_lease-IsPast i at le j held =
      let (named, timed, _) = inv.managers i in
      let same = p.id_inj i j (some_inj.0 (ap (λ x. some x) (sym named) ∙ held)) in
      (
        ap (λ d. some (int32 (d / second))) timed,
        λ r e. subst (λ k. r ≤ s.time + p.offset k) same (ground arith),
      )

  pub take_over-Inv :
      (i at rev : ℕ) (l : Lease)
      → s.bids i ≡ some (rev, l)
      → s.revision ≡ rev
      → at ≤ s.time
      → Inv p (written s i (taken_over (clock p.offset i at) (s.managers i) l) acquisition at)
  unfolding taken_over fresh_lease
  take_over-Inv i at rev l bid now le =
      let (current, overdue) =
        subst (AllSome (λ c. IsCurrent p s c × IsOverdue p s.time i c.1)) bid (inv.bids i) in
      written-Inv i (taken_over (clock p.offset i at) (s.managers i) l) acquisition at
        (ap (λ x. some x) (inv.managers i).0) refl (fresh_lease-IsPast i at le)
        λ j at' other e fresh live.
          let (held, stamped) = copy_owner (rev, l) j at' current now e fresh live in
          let late = overdue j (at' + p.offset j) other held stamped in omega arith

  pub create-Inv :
      (i at : ℕ)
      → s.lease ≡ none
      → at ≤ s.time
      → Inv p (written s i (fresh_lease (clock p.offset i at) (s.managers i)) acquisition at)
  unfolding fresh_lease
  create-Inv i at missing le =
      written-Inv i (fresh_lease (clock p.offset i at) (s.managers i)) acquisition at
        (ap (λ x. some x) (inv.managers i).0) refl (fresh_lease-IsPast i at le)
        λ j at' other e fresh live.
          let (l, stored, _, _) = inv.owner j at' e fresh live in absurd (ground arith)

  renewed_lease-IsPast :
      (i at : ℕ) (l : Lease)
      → at ≤ s.time
      → l.holder ≡ some (p.id i)
      → IsPast p s.time l
      → IsPast p s.time (record l { renew_time = some (clock p.offset i at) })
  renewed_lease-IsPast i at l le ours past j held =
      let same = p.id_inj i j (some_inj.0 (sym ours ∙ held)) in
      ((past j held).0, λ r e. subst (λ k. r ≤ s.time + p.offset k) same (ground arith))

  pub renew-Inv :
      (i at rev : ℕ) (l : Lease)
      → s.renewals i ≡ some (rev, l)
      → is_holder (s.managers i) l.holder ≡ true
      → s.revision ≡ rev
      → at ≤ s.time
      → Inv p (written s i (record l { renew_time = some (clock p.offset i at) }) renewal at)
  renew-Inv i at rev l got ours now le =
      let current = subst (AllSome (IsCurrent p s)) got (inv.renewals i) in
      let held = is_holder-eq (s.managers i) l.holder ours ∙ ap (λ x. some x) (inv.managers i).0 in
      written-Inv i (record l { renew_time = some (clock p.offset i at) }) renewal at held refl
        (renewed_lease-IsPast i at l le held current.2)
        λ j at' other e fresh live. other (
          p.id_inj j i
            (some_inj.0 (sym (copy_owner (rev, l) j at' current now e fresh live).0 ∙ held)))

  pub drop-Inv :
      (i rev : ℕ) (l : Lease)
      → s.drops i ≡ some (rev, l)
      → is_holder (s.managers i) l.holder ≡ true
      → s.revision ≡ rev
      → Inv p (record s {
        revision = suc s.revision;
        lease = some (record l { holder = none; renew_time = none });
      })
  drop-Inv i rev l got ours now =
      let (current, gone) =
        subst (AllSome (λ c. IsCurrent p s c × (s.released i ≡ true))) got (inv.drops i) in
      let held = is_holder-eq (s.managers i) l.holder ours ∙ ap (λ x. some x) (inv.managers i).0 in
      record {
        managers = inv.managers;
        dropped = inv.dropped;
        owner = λ j at e fresh live.
            let same =
              p.id_inj j i
                (some_inj.0 (sym (copy_owner (rev, l) j at current now e fresh live).0 ∙ held)) in
            absurd (ground (arith, subst (λ k. s.released k ≡ false) same live));
        past = λ j e. absurd (ground arith);
        reads = λ j. AllSome-map (s.reads j) after (inv.reads j);
        bids = λ j. AllSome-map (s.bids j) (λ c h. (after c h.0, h.1)) (inv.bids j);
        renewals = λ j. AllSome-map (s.renewals j) after (inv.renewals j);
        drops = λ j. AllSome-map (s.drops j) (λ c h. (after c h.0, h.1)) (inv.drops j);
      }
    where
      after :
          (c : Copy)
          → IsCurrent p s c
          → IsCurrent p
              (record s {
                revision = suc s.revision;
                lease = some (record l { holder = none; renew_time = none });
              })
              c
      after (r, k) (le, _, past) = (omega arith, λ e. absurd (omega arith), past)
