-- ===== src/Lease/Cluster/Judging.antt =====
-- What a manager's `claimable` says about the other managers: an observation is later than the stamp
-- that it shows, and a lease that is claimable is overdue.
use roommate_csi.Prelude.{
  ℕ, ◌+◌, ◌≤◌, ◌<◌, ◌≡◌, ◌≢◌, true, Option, none, some, [], refl, arith, ◌∙◌, ap, sym, Option-cases,
  inl, inr,
}
use roommate_csi.Prelude.Bytes.{Str, str_eq_iff}
use roommate_csi.Prelude.Int.{pos}
use roommate_csi.State.{Lease, Observation, Manager}
use roommate_csi.Lease.{claimable, first_seen, term, judge}
use roommate_csi.Lease.Claim.{rival, rival_of, claimable-rival, claimable_free}
use roommate_csi.Lease.Cluster.{clock}
use roommate_csi.Lease.Cluster.Facts.{Setup, IsPast, IsLater, IsOverdue}

rival_fields :
    (m : Manager) (l : Lease) (h : Str) (r : ℕ)
    → rival m l ≡ some (h, r)
    → (l.holder ≡ some h) × (l.renew_time ≡ some r)
unfolding rival_of
rival_fields m l h r e = (ground arith, ground arith)

pub rival_other :
    (m : Manager) (l : Lease) (h : Str) (r : ℕ)
    → h ≢ []
    → h ≢ m.holder
    → l.holder ≡ some h
    → l.renew_time ≡ some r
    → rival m l ≡ some (h, r)
unfolding rival_of
rival_other m l h r ne other eh er = ground (arith, str_eq_iff h [], str_eq_iff h m.holder)

-- Of the manager only the observation changes.
pub claimable-obs :
    (now : ℕ) (m : Manager) (l : Lease)
    → (claimable now m l).1 ≡ record m { obs = (claimable now m l).1.obs }
unfolding claimable
claimable-obs now m l = ground arith

module _ (p : Setup) (i : ℕ) (time : ℕ) (m : Manager) (l : Lease) (named : m.holder ≡ p.id i)
    (past : IsPast p time l) where
  abbrev now : ℕ
  now = clock p.offset i time

  first_seen-IsLater :
      (o : Option Observation) (h : Str) (r at j : ℕ)
      → IsLater p i o
      → first_seen o h r ≡ some at
      → h ≡ p.id j
      → r + p.offset i ≤ at + p.offset j
  unfolding first_seen
  first_seen-IsLater none h r at j later e is_j = ground arith
  first_seen-IsLater (some o) h r at j later e is_j = ground (arith, str_eq_iff o.holder h, later j)

  observed-IsLater :
      (h : Str) (r : ℕ)
      → rival m l ≡ some (h, r)
      → IsLater p i (some (record { holder = h; renew_time = r; at = now }))
  observed-IsLater h r e j is_j =
      let (held, stamped) = rival_fields m l h r e in
      let earlier = (past j (held ∙ ap (λ x. some x) is_j)).1 r stamped in omega arith

  pub claimable-IsLater : IsLater p i m.obs → IsLater p i (claimable now m l).1.obs
  claimable-IsLater later = elim (Option-cases (rival m l)) [
    | inl free ↦ rw (claimable_free now m l free) later
    | inr ((h, r), e) ↦
        rw (claimable-rival now m l h r e) (elim (Option-cases (first_seen m.obs h r)) [
          | inl fresh ↦ rw fresh (observed-IsLater h r e)
          | inr (at, seen) ↦ rw seen later
        ])
  ]

  pub term_ours : (j : ℕ) → l.holder ≡ some (p.id j) → term m l.duration_seconds ≡ pos p.duration
  unfolding term
  term_ours j held = ap (term m) (past j held).0 ∙ p.whole

  judge-ne-none :
      (h : Str) (r : ℕ) (o : Option ℕ) → o ≡ none → (judge now m h r (pos p.duration) o).0 ≢ true
  judge-ne-none h r none e y = ground arith
  judge-ne-none h r (some x) e y = ground arith

  judge-lt :
      (h : Str) (r at : ℕ) (o : Option ℕ)
      → o ≡ some at
      → (judge now m h r (pos p.duration) o).0 ≡ true
      → at + p.duration < now
  judge-lt h r at none e y = ground arith
  judge-lt h r at (some x) e y = ground arith

  pub claimable-IsOverdue : IsLater p i m.obs → (claimable now m l).0 ≡ true → IsOverdue p time i l
  claimable-IsOverdue later claims j r other held stamped =
      let e =
        rival_other m l (p.id j) r (p.id-ne-nil j) (λ q. other (p.id_inj j i (q ∙ named))) held
          stamped in
      let decided : (judge now m (p.id j) r (pos p.duration) (first_seen m.obs (p.id j) r)).0
          ≡ true =
        sym (
          ap (λ x. x.0) (claimable-rival now m l (p.id j) r e)
          ∙ ap (λ d. (judge now m (p.id j) r d (first_seen m.obs (p.id j) r)).0) (term_ours j held))
        ∙ claims in
      elim (Option-cases (first_seen m.obs (p.id j) r)) [
        | inl fresh ↦ absurd (judge-ne-none (p.id j) r (first_seen m.obs (p.id j) r) fresh decided)
        | inr (at, seen) ↦
            let long = judge-lt (p.id j) r at (first_seen m.obs (p.id j) r) seen decided in
            let since = first_seen-IsLater m.obs (p.id j) r at j later seen refl in omega arith
      ]
