-- ===== src/Lease/Claim.antt =====
-- `claimable` of pkg/objectfs/lease.go: when a lease is taken from another holder.
use roommate_csi.Prelude.{
  ℕ, ◌-◌, ◌≡◌, ◌⊎◌, inl, inr, refl, ◌∙◌, true, ◌||◌, Option, none, some, List, [], ◌∷◌, arith,
  Option-cases, if◌then◌else◌,
}
use roommate_csi.Prelude.Bytes.{Str, str_eq, str_eq_iff}
use roommate_csi.Prelude.Int.{exceeds}
use roommate_csi.State.{Lease, Observation, Manager}
use roommate_csi.Lease.{claimable, term, first_seen, judge}

-- The holder and the renew time that a lease shows, where it is not free and not our own.
unfoldable pub rival_of : Manager → Option Str → Option ℕ → Option (Str × ℕ)
rival_of m none renew_time = none
rival_of m (some holder) none = none
rival_of m (some holder) (some renew_time) =
    if str_eq holder [] || str_eq holder m.holder then none else some (holder, renew_time)

abbrev pub rival : Manager → Lease → Option (Str × ℕ)
rival m l = rival_of m l.holder l.renew_time

pub claimable_free :
    (now : ℕ) (m : Manager) (l : Lease) → rival m l ≡ none → claimable now m l ≡ (true, m)
unfolding claimable rival_of
claimable_free now m l h = ground arith

pub claimable-rival :
    (now : ℕ) (m : Manager) (l : Lease) (holder : Str) (renew_time : ℕ)
    → rival m l ≡ some (holder, renew_time)
    → claimable now m l
      ≡ judge now m holder renew_time
          (term m l.duration_seconds)
          (first_seen m.obs holder renew_time)
unfolding claimable rival_of
claimable-rival now m l holder renew_time h = ground arith

-- The manager after a history of polls, each with our clock and the lease that was read, newest
-- first.
unfoldable pub observing : Manager → List (ℕ × Lease) → Manager
observing m [] = m
observing m ((now, l) ∷ older) = (claimable now (observing m older) l).1

-- At the time `at` a poll showed this holder and renew time, and no poll since has shown another.
abbrev pub Silent : Manager → Str → ℕ → ℕ → List (ℕ × Lease) → Type 0
Silent m holder renew_time at [] = ⊥
Silent m holder renew_time at ((now, l) ∷ older) =
    ((rival m l ≡ some (holder, renew_time)) × (now ≡ at))
    ⊎ (((rival m l ≡ none) ⊎ (rival m l ≡ some (holder, renew_time)))
        × Silent m holder renew_time at older)

abbrev pub Explains : Manager → List (ℕ × Lease) → Option Observation → Type 0
Explains m ps none = Unit
Explains m ps (some o) = Silent m o.holder o.renew_time o.at ps

Explains-free :
    (m : Manager) (now : ℕ) (l : Lease) (ps : List (ℕ × Lease)) (o : Option Observation)
    → rival m l ≡ none
    → Explains m ps o
    → Explains m ((now, l) ∷ ps) o
Explains-free m now l ps none e h = tt
Explains-free m now l ps (some o) e h = inr (inl e, h)

Explains-first_seen :
    (m : Manager) (ps : List (ℕ × Lease)) (o : Option Observation) (holder : Str)
    (renew_time at : ℕ)
    → Explains m ps o
    → first_seen o holder renew_time ≡ some at
    → Silent m holder renew_time at ps
unfolding first_seen
Explains-first_seen m ps none holder renew_time at h e = cc
Explains-first_seen m ps (some o) holder renew_time at h e =
    ground (arith, h, str_eq_iff o.holder holder)

Explains-seen :
    (m : Manager) (now : ℕ) (l : Lease) (ps : List (ℕ × Lease)) (o : Option Observation)
    (holder : Str) (renew_time at : ℕ)
    → rival m l ≡ some (holder, renew_time)
    → Explains m ps o
    → first_seen o holder renew_time ≡ some at
    → Explains m ((now, l) ∷ ps) o
unfolding first_seen
Explains-seen m now l ps none holder renew_time at r h e = tt
Explains-seen m now l ps (some o) holder renew_time at r h e =
    inr (inr (ground (arith, str_eq_iff o.holder holder)), h)

pub claimable-holder : (now : ℕ) (m : Manager) (l : Lease) → (claimable now m l).1.holder ≡ m.holder
unfolding claimable
claimable-holder now m l = ground arith

observing-holder : (m : Manager) (ps : List (ℕ × Lease)) → (observing m ps).holder ≡ m.holder
unfolding observing
observing-holder m [] = refl
observing-holder m ((now, l) ∷ older) =
    claimable-holder now (observing m older) l ∙ observing-holder m older

rival-observing :
    (m : Manager) (ps : List (ℕ × Lease)) (l : Lease) → rival (observing m ps) l ≡ rival m l
unfolding rival_of
rival-observing m ps l = ground (arith, observing-holder m ps)

module _ (m m' : Manager) (now : ℕ) (l : Lease) (ps : List (ℕ × Lease))
    (same : rival m' l ≡ rival m l) (h : Explains m ps m'.obs) where
  Explains-judged :
      (holder : Str) (renew_time : ℕ)
      → rival m l ≡ some (holder, renew_time)
      → Explains m ((now, l) ∷ ps) (claimable now m' l).1.obs
  Explains-judged holder renew_time r =
      rw (claimable-rival now m' l holder renew_time (same ∙ r))
        (elim (Option-cases (first_seen m'.obs holder renew_time)) [
          | inl e ↦ rw e (inl (r, refl))
          | inr (at, e) ↦ rw e (Explains-seen m now l ps m'.obs holder renew_time at r h e)
        ])

  Explains-poll : Explains m ((now, l) ∷ ps) (claimable now m' l).1.obs
  Explains-poll = elim (Option-cases (rival m l)) [
    | inl e ↦ rw (claimable_free now m' l (same ∙ e)) (Explains-free m now l ps m'.obs e h)
    | inr ((holder, renew_time), e) ↦ Explains-judged holder renew_time e
  ]

observing-Explains :
    (m : Manager) (ps : List (ℕ × Lease)) → m.obs ≡ none → Explains m ps (observing m ps).obs
unfolding observing
observing-Explains m [] e = rw e tt
observing-Explains m ((now, l) ∷ older) e =
    Explains-poll m (observing m older) now l older (rival-observing m older l)
      (observing-Explains m older e)

-- Take a manager that has observed nothing, and any history of its polls. A lease that another holder
-- keeps is claimable after it only if an earlier poll showed the same holder and renew time, no poll
-- since has shown another, and our own clock has run for more than the lease's duration from that
-- poll.
pub claimable_waits :
    (m : Manager) (ps : List (ℕ × Lease)) (now : ℕ) (l : Lease) (holder : Str) (renew_time : ℕ)
    → m.obs ≡ none
    → rival m l ≡ some (holder, renew_time)
    → (claimable now (observing m ps) l).0 ≡ true
    → (at : ℕ) × Silent m holder renew_time at ps
      × (exceeds (now - at) (term (observing m ps) l.duration_seconds) ≡ true)
claimable_waits m ps now l holder renew_time fresh r yes' =
    let e = claimable-rival now (observing m ps) l holder renew_time (rival-observing m ps l ∙ r) in
    elim (Option-cases (first_seen (observing m ps).obs holder renew_time)) [
      | inl f ↦ absurd (ground arith)
      | inr (at, f) ↦ (
        at,
        Explains-first_seen m ps (observing m ps).obs holder renew_time at
            (observing-Explains m ps fresh) f,
        ground arith,
      )
    ]
