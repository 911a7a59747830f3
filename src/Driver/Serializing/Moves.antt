-- ===== src/Driver/Serializing/Moves.antt =====
-- Every step of a goroutine keeps the invariant.
use roommate_csi.Prelude.{
  update-others, ℕ, ◌+◌, ◌<◌, ◌≡◌, Bool, true, false, some, refl, arith, update, update-all, ==_iff,
  Bool-cases, inl, inr, sym, ap, ◌∙◌,
}
use roommate_csi.Prelude.Bytes.{Str, str_eq, str_eq_iff}
use roommate_csi.Driver.Serializing.{
  Pc, waiting, entered, publishing, settled, leaving, System, at, assign, lock, unlock,
}
use roommate_csi.Driver.Serializing.Counting.{bit, count, count-update, count_single}
use roommate_csi.Driver.Serializing.Facts.{
  is_lock, held_by-lock_of, is_lock_refl, lock_of, held_by, uses, holds, Named, Clear, Inv,
}

module _ (n : ℕ) (s : System) (inv : Inv n s) (t : ℕ) (lt : t < n) where
  -- Goroutine `t` goes on from `q` to `p`.
  pub count-moved :
      (test : Pc → Bool) (q p : Pc)
      → s.pc t ≡ q
      → count test n (update s.pc t p) + bit (test q) ≡ count test n s.pc + bit (test p)
  count-moved test q p e =
      ap (λ x. count test n (update s.pc t p) + bit (test x)) (sym e)
      ∙ count-update test n s.pc t p lt

  pub count_steady :
      (test : Pc → Bool) (q p : Pc)
      → s.pc t ≡ q
      → test p ≡ test q
      → count test n (update s.pc t p) ≡ count test n s.pc
  count_steady test q p e same =
      let moved = count-moved test q p e in let bits = ap bit same in omega arith

  -- It keeps the locks that it has.
  pub same-Inv :
      (q p : Pc)
      → s.pc t ≡ q
      → lock_of p ≡ lock_of q
      → held_by p ≡ held_by q
      → Clear n s p
      → Inv n (at t p s)
  same-Inv q p e uses_eq holds_eq clear = record {
    named =
        update-all s.pc t p (Named n s) (λ x a h. inv.named t x a (ap lock_of e ∙ sym uses_eq ∙ h))
          inv.named;
    counted = λ x a h.
        let (fresh, counts) = inv.counted x a h in
        (fresh, counts ∙ sym (count_steady (uses a) q p e (ap (is_lock a) uses_eq)));
    apart = inv.apart;
    token = λ a h.
        let steady = count_steady (holds a) q p e (ap (is_lock a) holds_eq) in
        let before = inv.token a h in omega arith;
    clear = update-all s.pc t p (λ _. Clear n s) clear inv.clear;
  }

  -- Two goroutines that hold the lock of a target are the same.
  pub hold_once :
      (u : ℕ) (x : Str) (a b : ℕ)
      → held_by (s.pc t) ≡ some (x, a)
      → held_by (s.pc u) ≡ some (x, b)
      → u ≡ t
  hold_once u x a b mine theirs =
      let (_, named) = inv.named t x a (held_by-lock_of (s.pc t) (x, a) mine) in
      let (below, named') = inv.named u x b (held_by-lock_of (s.pc u) (x, b) theirs) in
      let same : b ≡ a = ground arith in
      let one = inv.token a (inv.counted x a named).0 in
      count_single (holds a) n s.pc u t below lt (omega arith)
        (is_lock_refl a x (held_by (s.pc u)) (theirs ∙ ap (λ k. some (x, k)) same))
        (is_lock_refl a x (held_by (s.pc t)) mine)

  module _ (x : Str) (a : ℕ) where
    pub lock-Inv : s.pc t ≡ waiting x a → s.unlocked a ≡ true → Inv n (lock t x a s)
    lock-Inv e free = record {
      named =
          update-all s.pc t (entered x a) (Named n s) (λ y b h. inv.named t y b (ap lock_of e ∙ h))
            inv.named;
      counted = λ y b h.
          let (fresh, counts) = inv.counted y b h in
          (fresh, counts ∙ sym (count_steady (uses b) (waiting x a) (entered x a) e refl));
      apart = inv.apart;
      token = λ b h.
          let moved = count-moved (holds b) (waiting x a) (entered x a) e in
          let before = inv.token b h in ground (arith, ==_iff b a, ==_iff a b);
      clear = update-all s.pc t (entered x a) (λ _. Clear n s) (λ y b h. ground arith) inv.clear;
    }

    pub unlock-Inv : s.pc t ≡ settled x a → s.unlocked a ≡ false → Inv n (unlock t x a s)
    unlock-Inv e taken = record {
      named =
          update-all s.pc t (leaving x a) (Named n s) (λ y b h. inv.named t y b (ap lock_of e ∙ h))
            inv.named;
      counted = λ y b h.
          let (fresh, counts) = inv.counted y b h in
          (fresh, counts ∙ sym (count_steady (uses b) (settled x a) (leaving x a) e refl));
      apart = inv.apart;
      token = λ b h.
          let moved = count-moved (holds b) (settled x a) (leaving x a) e in
          let before = inv.token b h in ground (arith, ==_iff b a, ==_iff a b);
      clear = update-all s.pc t (leaving x a) (λ _. Clear n s) (λ y b h. ground arith) inv.clear;
    }

    -- Only the holder of a target's lock publishes it.
    pub put-Inv :
        s.pc t ≡ publishing x a
        → Inv n (at t (settled x a) (record s { live = assign s.live x true }))
    put-Inv e =
        let moved = same-Inv (publishing x a) (settled x a) e refl refl (λ y b h. ground arith) in
        record {
          named = moved.named;
          counted = moved.counted;
          apart = moved.apart;
          token = moved.token;
          clear =
              update-others s.pc t (settled x a)
                (λ _. Clear n (record s { live = assign s.live x true })) (λ y b h. ground arith)
                (λ u other y b h. elim (Bool-cases (str_eq y x)) [
                  | inl same ↦
                      let eq = (str_eq_iff y x).0 same in
                      absurd (
                        other (
                          hold_once u x a b (ap held_by e)
                            (ap held_by h ∙ ap (λ z. some (z, b)) eq)))
                  | inr apart ↦ rw apart (inv.clear u y b h)
                ]);
        }

pub unpublish-Inv :
    (n : ℕ) (s : System) (y : Str) → Inv n s → Inv n (record s { live = assign s.live y false })
unpublish-Inv n s y inv = record {
  named = inv.named;
  counted = inv.counted;
  apart = inv.apart;
  token = inv.token;
  clear = λ u z b h. let before = inv.clear u z b h in ground arith;
}
