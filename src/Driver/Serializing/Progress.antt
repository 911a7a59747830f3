-- ===== src/Driver/Serializing/Progress.antt =====
-- Nobody waits for a lock that cannot be released.
use roommate_csi.Prelude.{
  ℕ, ◌<◌, ◌≡◌, ◌≢◌, Bool, true, false, some, refl, arith, ==-refl, ==-other, Bool-cases, inl, inr,
  ap, ◌∙◌,
}
use roommate_csi.Prelude.Bytes.{Str}
use roommate_csi.Driver.Serializing.{
  Pc, idle, missed, waiting, entered, publishing, settled, leaving, System, at, lock, unlock,
  recheck, Step, take, look, give_up, give_back, init, Run, here, later,
}
use roommate_csi.Driver.Serializing.Counting.{count_some}
use roommate_csi.Driver.Serializing.Facts.{lock_of, held_by, holds, is_lock-some}
use roommate_csi.Driver.Serializing.Exclusion.{Run-Inv}

module _ (n : ℕ) where
  Run-trans : {s t u : System} → Run n s t → Run n t u → Run n s u
  Run-trans first here = first
  Run-trans first (later run step) = later (Run-trans first run) step

  -- Goroutine `u` puts the token back, and the others stay where they are.
  abbrev Freed : System → ℕ → ℕ → Type 0
  Freed s u a =
      (t : System) × Run n s t × (t.unlocked a ≡ true) × ((v : ℕ) → v ≢ u → t.pc v ≡ s.pc v)

  module _ (u : ℕ) (lt : u < n) (x : Str) (a : ℕ) where
    after : (s : System) (p : Pc) → Step n s (at u p s) → Freed (at u p s) u a → Freed s u a
    after s p step (t, run, free, rest) = (
      t,
      Run-trans (later here step) run,
      free,
      λ v other. rest v other ∙ (rw (==-other v u other) refl),
    )

    settled_frees : (s : System) → s.unlocked a ≡ false → s.pc u ≡ settled x a → Freed s u a
    settled_frees s taken e = (
      unlock u x a s,
      later here (give_back u lt e taken),
      rw (==-refl a) refl,
      λ v other. rw (==-other v u other) refl,
    )

    publishing_frees : (s : System) → s.unlocked a ≡ false → s.pc u ≡ publishing x a → Freed s u a
    publishing_frees s taken e =
        after s (settled x a) (give_up u lt e)
          (settled_frees (at u (settled x a) s) taken (rw (==-refl u) refl))

    entered_frees : (s : System) → s.unlocked a ≡ false → s.pc u ≡ entered x a → Freed s u a
    entered_frees s taken e =
        after s (recheck x a (s.live x)) (look u lt e) (elim (Bool-cases (s.live x)) [
          | inl hit ↦ rw hit (settled_frees (at u (settled x a) s) taken (rw (==-refl u) refl))
          | inr miss ↦
              rw miss (publishing_frees (at u (publishing x a) s) taken (rw (==-refl u) refl))
        ])

    held_frees :
        (s : System) (q : Pc)
        → s.unlocked a ≡ false
        → s.pc u ≡ q
        → held_by q ≡ some (x, a)
        → Freed s u a
    held_frees s idle taken e h = absurd (ground arith)
    held_frees s (missed y) taken e h = absurd (ground arith)
    held_frees s (waiting y b) taken e h = absurd (ground arith)
    held_frees s (leaving y b) taken e h = absurd (ground arith)
    held_frees s (entered y b) taken e h = entered_frees s taken (ground arith)
    held_frees s (publishing y b) taken e h = publishing_frees s taken (ground arith)
    held_frees s (settled y b) taken e h = settled_frees s taken (ground arith)

  -- From every reachable state in which a goroutine waits for the lock of a target, a run leads to a
  -- state in which it holds that lock.
  pub lock_granted :
      {live : Str → Bool} {s : System}
      → Run n (init live) s
      → (t : ℕ) (x : Str) (a : ℕ) → s.pc t ≡ waiting x a
      → (s' : System) × Run n s s' × (s'.pc t ≡ entered x a)
  lock_granted {live} {s} run t x a e =
      let (inv, _) = Run-Inv n run in
      let (lt, named) = inv.named t x a (ap lock_of e) in
      let one = inv.token a (inv.counted x a named).0 in
      elim (Bool-cases (s.unlocked a)) [
        | inl free ↦ (lock t x a s, later here (take t lt e free), rw (==-refl t) refl)
        | inr taken ↦
            let (u, below, holding) = count_some (holds a) n s.pc (ground arith) in
            let (y, held) = is_lock-some a (held_by (s.pc u)) holding in
            let (s1, frees, free, rest) = held_frees u below y a s (s.pc u) taken refl held in
            let e1 : s1.pc t ≡ waiting x a = rest t (λ same. ground arith) ∙ e in
            (lock t x a s1, later frees (take t lt e1 free), rw (==-refl t) refl)
      ]
