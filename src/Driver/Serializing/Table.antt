-- ===== src/Driver/Serializing/Table.antt =====
-- The steps that change the table of locks keep the invariant.
use roommate_csi.Prelude.{
  update-others, ==-other, ℕ, ◌-◌, ◌<◌, ◌≡◌, ◌≢◌, ◌==◌, true, false, none, some, refl, arith,
  update, update-all, ==_iff, ==-refl, Bool-cases, inl, inr, ap, ◌∙◌,
}
use roommate_csi.Prelude.Bytes.{Str, str_eq, str_eq_iff}
use roommate_csi.Driver.Serializing.{
  Pc, idle, missed, waiting, leaving, System, unlock_target, use_lock, new_target_lock,
}
use roommate_csi.Driver.Serializing.Counting.{bit, count_none, count-lt}
use roommate_csi.Driver.Serializing.Facts.{
  lock_of, held_by, uses, holds, Named, Clear, Inv, held_by-lock_of, is_lock-some, is_lock_refl,
}
use roommate_csi.Driver.Serializing.Moves.{count-moved, count_steady}

module _ (n : ℕ) (s : System) (inv : Inv n s) where
  unused : (u : ℕ) → uses s.next (s.pc u) ≡ false
  unused u = elim (Bool-cases (uses s.next (s.pc u))) [
    | inl used ↦
        let (x, e) = is_lock-some s.next (lock_of (s.pc u)) used in
        let (_, named) = inv.named u x s.next e in
        let (fresh, _) = inv.counted x s.next named in absurd (omega arith)
    | inr free ↦ free
  ]

  not_held : (a : ℕ) (p : Pc) → uses a p ≡ false → holds a p ≡ false
  not_held a p e = elim (Bool-cases (holds a p)) [
    | inl held ↦
        let (x, h) = is_lock-some a (held_by p) held in
        absurd (ground (arith, is_lock_refl a x (lock_of p) (held_by-lock_of p (x, a) h)))
    | inr free ↦ free
  ]

  pub new_target_lock-Inv : (x : Str) → s.locks x ≡ none → Inv n (new_target_lock x s)
  new_target_lock-Inv x missing = record {
    named = λ u y b h.
        let (below, before) = inv.named u y b h in (below, ground (arith, str_eq_iff y x));
    counted = λ y b h.
        let zero_uses = count_none (uses s.next) n s.pc unused in
        ground (arith, inv.counted y b, str_eq_iff y x, ==_iff b s.next);
    apart = λ y z b hy hz.
        ground (
          arith,
          inv.apart y z b,
          inv.counted y b,
          inv.counted z b,
          str_eq_iff y x,
          str_eq_iff z x,
        );
    token = λ b h.
        let zero_holds =
          count_none (holds s.next) n s.pc (λ u. not_held s.next (s.pc u) (unused u)) in
        ground (arith, inv.token b, ==_iff b s.next);
    clear = inv.clear;
  }

  module _ (t : ℕ) (lt : t < n) (x : Str) (a : ℕ) where
    pub use_lock-Inv : s.pc t ≡ missed x → s.locks x ≡ some a → Inv n (use_lock t x a s)
    use_lock-Inv e found = record {
      named = update-all s.pc t (waiting x a) (Named n s) (λ y b h. (lt, ground arith)) inv.named;
      counted = λ y b h.
          let (fresh, counts) = inv.counted y b h in
          let moved = count-moved n s inv t lt (uses b) (missed x) (waiting x a) e in
          (fresh, ground (arith, ==_iff a b, ==_iff b a));
      apart = inv.apart;
      token = λ b h.
          let steady = count_steady n s inv t lt (holds b) (missed x) (waiting x a) e refl in
          let before = inv.token b h in omega arith;
      clear = update-all s.pc t (waiting x a) (λ _. Clear n s) (λ y b h. ground arith) inv.clear;
    }

    kept : (y : Str) (b : ℕ) → (unlock_target t x a s).locks y ≡ some b → s.locks y ≡ some b
    kept y b h = ground arith

    -- Whoever else has a reference keeps the lock in the table.
    still :
        s.pc t ≡ leaving x a
        → (u : ℕ) → u ≢ t
        → (y : Str) (b : ℕ) → lock_of (s.pc u) ≡ some (y, b)
        → u < n
        → s.locks y ≡ some b
        → (unlock_target t x a s).locks y ≡ some b
    still e u other y b h below found = elim (Bool-cases (s.refs a - 1 == 0)) [
      | inr more ↦ rw more found
      | inl last ↦ rw last (elim (Bool-cases (str_eq y x)) [
        | inr apart ↦ rw apart found
        | inl same ↦
            let eq = (str_eq_iff y x).0 same in
            let (_, mine) = inv.named t x a (ap lock_of e) in
            let is_a : b ≡ a = ground arith in
            let (_, counts) = inv.counted x a mine in
            let moved = count-moved n s inv t lt (uses a) (leaving x a) idle e in
            let one = ap bit (==-refl a) in
            let theirs : uses a (update s.pc t idle u) ≡ true =
              rw (==-other u t other)
                (is_lock_refl a y (lock_of (s.pc u)) (h ∙ ap (λ k. some (y, k)) is_a)) in
            let some_use = count-lt (uses a) n (update s.pc t idle) u below theirs in
            absurd (ground (arith, ==_iff (s.refs a - 1) 0))
      ])
    ]

    pub unlock_target-Inv : s.pc t ≡ leaving x a → Inv n (unlock_target t x a s)
    unlock_target-Inv e = record {
      named =
          update-others s.pc t idle (Named n (unlock_target t x a s)) (λ y b h. ground arith)
            (λ u other y b h.
              let (below, before) = inv.named u y b h in
              (below, still e u other y b h below before));
      counted = λ y b h.
          let moved = count-moved n s inv t lt (uses b) (leaving x a) idle e in
          let (fresh, counts) = inv.counted y b (kept y b h) in
          (fresh, ground (arith, ==_iff a b, ==_iff b a));
      apart = λ y z b hy hz. inv.apart y z b (kept y b hy) (kept z b hz);
      token = λ b h.
          let steady = count_steady n s inv t lt (holds b) (leaving x a) idle e refl in
          let before = inv.token b h in omega arith;
      clear = update-all s.pc t idle (λ _. Clear n s) (λ y b h. ground arith) inv.clear;
    }
