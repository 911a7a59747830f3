-- ===== src/Lease/Cluster/Stalling.antt =====
-- What happens when the renewals do not keep up: `renewLoop` marks a lease unhealthy only when a
-- renewal has failed, and a renewal has no deadline.
use roommate_csi.Prelude.{
  sym, ℕ, zero, suc, ◌+◌, ◌<◌, ◌≡◌, ◌≢◌, true, false, none, some, refl, arith, ◌∙◌, ap, subst,
  update, ==-refl, ==-other, Option-cases, inl, inr, AllSome,
}
use roommate_csi.Prelude.Bytes.{Str, str_eq_refl}
use roommate_csi.Prelude.Int.{pos}
use roommate_csi.State.{Lease, Manager}
use roommate_csi.Lease.{claimable, first_seen, term, taken_over}
use roommate_csi.Lease.Claim.{rival, claimable-rival}
use roommate_csi.Lease.Cluster
use roommate_csi.Lease.Cluster.{
  acquisition, start, KeepsUp, Copy, Cluster, is_healthy, clock, judged, bid_of, started, written,
  Step, tick, get, take_over, Reach, here, next,
}
use roommate_csi.Lease.Cluster.Facts.{Setup, IsPast, Inv}
use roommate_csi.Lease.Cluster.Judging.{claimable-obs, rival_other, term_ours}

ticks : (offset : ℕ → ℕ) (n : ℕ) (s : Cluster) → Reach offset s (record s { time = s.time + n })
ticks offset n s = go n
  where
    retimed :
        (a b : ℕ)
        → a ≡ b
        → Reach offset s (record s { time = a })
        → Reach offset s (record s { time = b })
    retimed a b e = subst (λ x. Reach offset s (record s { time = x })) e

    go : (n : ℕ) → Reach offset s (record s { time = s.time + n })
    go zero = retimed s.time (s.time + zero) (omega arith) here
    go (suc n) = retimed (suc (s.time + n)) (s.time + suc n) (omega arith) (next (go n) tick)

Reach-trans :
    {offset : ℕ → ℕ} {s t u : Cluster} → Reach offset s t → Reach offset t u → Reach offset s u
Reach-trans first here = first
Reach-trans first (next run step) = next (Reach-trans first run) step

seen_now :
    (now : ℕ) (h : Str) (r : ℕ)
    → first_seen (some (record { holder = h; renew_time = r; at = now })) h r ≡ some now
unfolding first_seen
seen_now now h r = rw (str_eq_refl h, ==-refl r) refl

-- A rival's record has been seen, once it has been judged.
judged_seen :
    (now : ℕ) (m : Manager) (l : Lease) (h : Str) (r : ℕ)
    → rival m l ≡ some (h, r)
    → (at : ℕ) × (first_seen (claimable now m l).1.obs h r ≡ some at)
judged_seen now m l h r e = elim (Option-cases (first_seen m.obs h r)) [
  | inl fresh ↦ (now, rw (claimable-rival now m l h r e, fresh) (seen_now now h r))
  | inr (at, seen) ↦ (at, rw (claimable-rival now m l h r e, seen) seen)
]

-- After as long a silence, its lease is claimable.
judged_claims :
    (now : ℕ) (m : Manager) (l : Lease) (h : Str) (r at d : ℕ)
    → rival m l ≡ some (h, r)
    → first_seen m.obs h r ≡ some at
    → term m l.duration_seconds ≡ pos d
    → at + d < now
    → (claimable now m l).0 ≡ true
judged_claims now m l h r at d e seen timed late =
    rw (claimable-rival now m l h r e, seen, timed) (ground arith)

module _ (p : Setup) where
  -- `Get`, and what `claimable` makes of it.
  abbrev polled : Cluster → ℕ → Copy → Cluster
  polled s j c = record s {
    managers = update s.managers j (judged p.offset s j c).1;
    reads = update (update s.reads j (some c)) j none;
    bids = update s.bids j (bid_of (judged p.offset s j c).0 c);
  }

  Reach-polled :
      (s : Cluster) (j : ℕ) (l : Lease)
      → s.lease ≡ some l
      → (s.managers j).held ≡ false
      → Reach p.offset s (polled s j (s.revision, l))
  Reach-polled s j l e idle =
      next (next here (get j e idle)) (Cluster.judge j (rw (==-refl j) refl))

  -- A copy that is claimable is taken over.
  claimed :
      (s : Cluster) (j : ℕ) (l : Lease)
      → s.lease ≡ some l
      → (judged p.offset s j (s.revision, l)).0 ≡ true
      → (judged p.offset s j (s.revision, l)).1.held ≡ false
      → s.released j ≡ false
      → (t : Cluster) × Reach p.offset s t
        × (is_healthy (t.managers j) ≡ true)
        × (t.released j ≡ false)
        × ((k : ℕ) → k ≢ j → t.managers k ≡ s.managers k)
  claimed s j l stored claims idle live =
      let s1 : Cluster = polled s j (s.revision, l) in
      let idle_before =
        sym (ap (λ x. x.held) (claimable-obs (clock p.offset j s.time) (s.managers j) l)) ∙ idle in
      let bid : s1.bids j ≡ some (s.revision, l) = rw (==-refl j, claims) refl in
      let s2 : Cluster =
        written s1 j (taken_over (clock p.offset j s.time) (s1.managers j) l) acquisition s.time in
      let taken : Reach p.offset s s2 =
        next (Reach-polled s j l stored idle_before)
          (take_over j s.time bid refl (rw (==-refl j) idle) live (omega arith)) in
      (
        record s2 {
          managers = update s2.managers j (started (s2.managers j));
          answers = update s2.answers j none;
        },
        next taken (start j (rw (==-refl j) refl) live),
        rw (==-refl j, idle) refl,
        live,
        λ k other. rw (==-other k j other) refl,
      )

  -- In a state with the invariant, whenever the lease of manager `i` counts as healthy, and its last
  -- accepted write was stamped no longer than a lease's duration ago, a run leads to a state in which
  -- that of another manager `j` counts as healthy too, and is not released, if `j` neither holds its
  -- lease nor has released it: `j` polls, and polls again after more than a lease's duration in which
  -- `i` does not run.
  pub overtaken :
      (s : Cluster) (i j : ℕ)
      → Inv p s
      → KeepsUp s i
      → is_healthy (s.managers i) ≡ true
      → i ≢ j
      → (s.managers j).held ≡ false
      → s.released j ≡ false
      → (t : Cluster) × Reach p.offset s t
        × (is_healthy (t.managers i) ≡ true)
        × (is_healthy (t.managers j) ≡ true)
        × (t.released j ≡ false)
  overtaken s i j inv (taken_at, written_at, fresh) healthy other idle live =
      let timed = (inv.managers i).1 in
      let (l, stored, held, stamped) =
        inv.owner i taken_at written_at (omega arith) (ground (arith, inv.dropped i)) in
      let named = (inv.managers j).0 in
      let m = s.managers j in
      let now = clock p.offset j s.time in
      let r : ℕ = taken_at + p.offset i in
      let past : IsPast p s.time l = subst (AllSome (IsPast p s.time)) stored inv.past in
      let foreign : p.id i ≢ m.holder = λ e. other (p.id_inj i j (e ∙ named)) in
      let seen =
        judged_seen now m l (p.id i) r
          (rival_other m l (p.id i) r (p.id-ne-nil i) foreign held stamped) in
      let keeps = claimable-obs now m l in
      let m1 : Manager = (claimable now m l).1 in
      let n : ℕ = suc (seen.0 + p.duration) in
      let s1 : Cluster = polled s j (s.revision, l) in
      let s2 : Cluster = record s1 { time = s.time + n } in
      let is_m1 : s2.managers j ≡ m1 = rw (==-refl j) refl in
      let foreign1 : p.id i ≢ m1.holder = λ e. foreign (e ∙ ap (λ x. x.holder) keeps) in
      let claims : (claimable (clock p.offset j s2.time) m1 l).0 ≡ true =
        judged_claims (clock p.offset j s2.time) m1 l (p.id i) r seen.0 p.duration
          (rival_other m1 l (p.id i) r (p.id-ne-nil i) foreign1 held stamped) seen.1
          (term_ours p j s.time m1 l (ap (λ x. x.holder) keeps ∙ named) past i held)
          (omega arith) in
      let idle2 =
        ap (λ x. x.held) (claimable-obs (clock p.offset j s2.time) (s2.managers j) l)
        ∙ ap (λ x. x.held) (is_m1 ∙ keeps)
        ∙ idle in
      let (t, run, wins, unreleased, others) =
        claimed s2 j l stored
          (ap (λ x. (claimable (clock p.offset j s2.time) x l).0) is_m1 ∙ claims) idle2 live in
      (
        t,
        Reach-trans (Reach-trans (Reach-polled s j l stored idle) (ticks p.offset n s1)) run,
        rw (others i other) (rw (==-other i j other) healthy),
        wins,
        unreleased,
      )
