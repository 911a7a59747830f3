-- ===== src/Driver/Serializing/Exclusion.antt =====
-- The lock of a target serializes its first publishes, and is in the table while it is in use.
use roommate_csi.Prelude.{
  ℕ, ◌<◌, ◌≡◌, ◌↔◌, Bool, false, Option, none, some, refl, arith, ==_iff, Bool-cases, Option-cases,
  inl, inr, subst, ap, ◌∙◌,
}
use roommate_csi.Prelude.Bytes.{Str, str_eq_iff, str_eq_refl}
use roommate_csi.Driver.Serializing.{
  idle, missed, entered, publishing, settled, leaving, System, at, lock_target, unlock_target,
  fast_path, recheck, use_found, new_target_lock, Step, ask, want, take, look, put, give_up,
  give_back, leave, unpublish, init, Run, here, later,
}
use roommate_csi.Driver.Serializing.Counting.{count_some}
use roommate_csi.Driver.Serializing.Facts.{lock_of, held_by, uses, Inv, Used, is_lock-some}
use roommate_csi.Driver.Serializing.Moves.{
  same-Inv, hold_once, lock-Inv, unlock-Inv, put-Inv, unpublish-Inv,
}
use roommate_csi.Driver.Serializing.Table.{new_target_lock-Inv, use_lock-Inv, unlock_target-Inv}

module _ (n : ℕ) where
  init-Inv : (live : Str → Bool) → Inv n (init live)
  init-Inv live = record {
    named = λ t x a h. ground arith;
    counted = λ x a h. ground arith;
    apart = λ x y a h h'. ground arith;
    token = λ a h. absurd (omega arith);
    clear = λ t x a h. ground arith;
  }

  module _ (s : System) (inv : Inv n s) (t : ℕ) (lt : t < n) (x : Str) where
    ask-Inv : s.pc t ≡ idle → Inv n (at t (fast_path x (s.live x)) s)
    ask-Inv e = elim (Bool-cases (s.live x)) [
      | inl hit ↦ rw hit (same-Inv n s inv t lt idle idle e refl refl (λ y b h. ground arith))
      | inr miss ↦
          rw miss (same-Inv n s inv t lt idle (missed x) e refl refl (λ y b h. ground arith))
    ]

    look-Inv : (a : ℕ) → s.pc t ≡ entered x a → Inv n (at t (recheck x a (s.live x)) s)
    look-Inv a e = elim (Bool-cases (s.live x)) [
      | inl hit ↦
          rw hit
            (same-Inv n s inv t lt (entered x a) (settled x a) e refl refl (λ y b h. ground arith))
      | inr miss ↦ rw miss (
          same-Inv n s inv t lt (entered x a) (publishing x a) e refl refl
            (λ y b h. ground (arith)))
    ]

    lock_target-Inv : s.pc t ≡ missed x → Inv n (lock_target t x s)
    lock_target-Inv e = elim (Option-cases (s.locks x)) [
      | inl missing ↦ rw missing (
          use_lock-Inv n (new_target_lock x s) (new_target_lock-Inv n s inv x missing) t lt x s.next
            e (rw (str_eq_refl x) refl))
      | inr (a, found) ↦ rw found (use_lock-Inv n s inv t lt x a e found)
    ]

    use_found-Used : (o : Option ℕ) → s.locks x ≡ o → Used s → Used (use_found t x o s)
    use_found-Used none missing used y b h =
        ground (arith, used y b, str_eq_iff y x, ==_iff b s.next)
    use_found-Used (some a) found used y b h = ground (arith, used y b, ==_iff b a)

    lock_target-Used : Used s → Used (lock_target t x s)
    lock_target-Used = use_found-Used (s.locks x) refl

    unlock_target-Used : (a : ℕ) → s.pc t ≡ leaving x a → Used s → Used (unlock_target t x a s)
    unlock_target-Used a e used y b h = ground (
      arith,
      used y b,
      str_eq_iff y x,
      ==_iff b a,
      inv.apart y x a,
      inv.named t x a (ap lock_of e),
    )

  Step-Inv : {s s' : System} → Step n s s' → Inv n s → Inv n s'
  Step-Inv {s} (ask t target lt e) inv = ask-Inv s inv t lt target e
  Step-Inv {s} (want t {target} lt e) inv = lock_target-Inv s inv t lt target e
  Step-Inv {s} (take t {target} {a} lt e free) inv = lock-Inv n s inv t lt target a e free
  Step-Inv {s} (look t {target} {a} lt e) inv = look-Inv s inv t lt target a e
  Step-Inv {s} (put t {target} {a} lt e) inv = put-Inv n s inv t lt target a e
  Step-Inv {s} (give_up t {target} {a} lt e) inv =
      same-Inv n s inv t lt (publishing target a) (settled target a) e refl refl
        (λ y b h. ground arith)
  Step-Inv {s} (give_back t {target} {a} lt e taken) inv = unlock-Inv n s inv t lt target a e taken
  Step-Inv {s} (leave t {target} {a} lt e) inv = unlock_target-Inv n s inv t lt target a e
  Step-Inv {s} (unpublish target) inv = unpublish-Inv n s target inv

  Step-Used : {s s' : System} → Step n s s' → Inv n s → Used s → Used s'
  Step-Used {s} (want t {target} lt e) inv used = lock_target-Used s inv t lt target used
  Step-Used {s} (leave t {target} {a} lt e) inv used = unlock_target-Used s inv t lt target a e used
  Step-Used {s} (ask t target lt e) inv used = used
  Step-Used {s} (take t {target} {a} lt e free) inv used = used
  Step-Used {s} (look t {target} {a} lt e) inv used = used
  Step-Used {s} (put t {target} {a} lt e) inv used = used
  Step-Used {s} (give_up t {target} {a} lt e) inv used = used
  Step-Used {s} (give_back t {target} {a} lt e taken) inv used = used
  Step-Used {s} (unpublish target) inv used = used

  pub Run-Inv : {live : Str → Bool} {s : System} → Run n (init live) s → Inv n s × Used s
  Run-Inv {live} here = (init-Inv live, λ x a h. ground arith)
  Run-Inv (later run step) =
      let (inv, used) = Run-Inv run in (Step-Inv step inv, Step-Used step inv used)

  -- In every reachable state, while a goroutine publishes a target, under the lock and after the two
  -- misses in the registry, the target has no live mount, and nobody else publishes it.
  pub publish_once :
      {live : Str → Bool} {s : System}
      → Run n (init live) s
      → (t : ℕ) (x : Str) (a : ℕ) → s.pc t ≡ publishing x a
      → (s.live x ≡ false) × ((u b : ℕ) → s.pc u ≡ publishing x b → u ≡ t)
  publish_once {live} {s} run t x a e =
      let (inv, _) = Run-Inv run in
      let (lt, _) = inv.named t x a (ap lock_of e) in
      (inv.clear t x a e, λ u b e'. hold_once n s inv t lt u x a b (ap held_by e) (ap held_by e'))

  -- In every reachable state the table has a lock for a target just when a goroutine has a reference
  -- to that lock for that target.
  pub table_exact :
      {live : Str → Bool} {s : System}
      → Run n (init live) s
      → (x : Str) (a : ℕ) → (s.locks x ≡ some a) ↔ ((t : ℕ) × (lock_of (s.pc t) ≡ some (x, a)))
  table_exact {live} {s} run x a =
      let (inv, used) = Run-Inv run in
      (
        λ found.
            let (_, counts) = inv.counted x a found in
            let (t, _, uses_a) =
              count_some (uses a) n s.pc (subst (λ k. 0 < k) counts (used x a found)) in
            let (y, e) = is_lock-some a (lock_of (s.pc t)) uses_a in
            let (_, named) = inv.named t y a e in
            (t, e ∙ ap (λ z. some (z, a)) (inv.apart y x a named found)),
        λ (t, e). (inv.named t x a e).1,
      )
