-- ===== src/Driver/Serializing/Counting.antt =====
-- How many of the first `n` goroutines are in a place that a test picks out.
use roommate_csi.Prelude.{
  ℕ, zero, suc, ◌+◌, ◌<◌, ◌≤◌, ◌≡◌, ◌==◌, Bool, true, false, refl, arith, update, ==_iff,
  Bool-cases, inl, inr,
}

-- One for true.
abbrev pub bit : Bool → ℕ
bit true = 1
bit false = 0

module _ {ℓ} {A : Type ℓ} (test : A → Bool) where
  unfoldable pub count : ℕ → (ℕ → A) → ℕ
  count zero f = 0
  count (suc n) f = count n f + bit (test (f n))

  count_outside : (n : ℕ) (f : ℕ → A) (i : ℕ) (a : A) → n ≤ i → count n (update f i a) ≡ count n f
  unfolding count
  count_outside zero f i a h = refl
  count_outside (suc n) f i a h = ground (arith, count_outside n f i a, ==_iff n i)

  pub count-update :
      (n : ℕ) (f : ℕ → A) (i : ℕ) (a : A)
      → i < n
      → count n (update f i a) + bit (test (f i)) ≡ count n f + bit (test a)
  unfolding count
  count-update zero f i a h = absurd (omega arith)
  count-update (suc n) f i a h = elim (Bool-cases (n == i)) [
    | inl last ↦ ground (arith, count_outside n f i a, ==_iff n i)
    | inr below ↦ ground (arith, count-update n f i a, ==_iff n i)
  ]

  -- Nobody is counted if nobody passes the test.
  pub count_none : (n : ℕ) (f : ℕ → A) → ((i : ℕ) → test (f i) ≡ false) → count n f ≡ 0
  unfolding count
  count_none zero f h = refl
  count_none (suc n) f h = ground (arith, count_none n f h, h n)

  -- Whoever passes the test is counted.
  pub count-lt : (n : ℕ) (f : ℕ → A) (i : ℕ) → i < n → test (f i) ≡ true → 0 < count n f
  unfolding count
  count-lt zero f i h e = absurd (omega arith)
  count-lt (suc n) f i h e = elim (Bool-cases (n == i)) [
    | inl last ↦ ground (arith, ==_iff n i)
    | inr below ↦ ground (arith, ==_iff n i, count-lt n f i)
  ]

  -- If only one passes the test, nobody else does.
  pub count_single :
      (n : ℕ) (f : ℕ → A) (i j : ℕ)
      → i < n
      → j < n
      → count n f ≤ 1
      → test (f i) ≡ true
      → test (f j) ≡ true
      → i ≡ j
  unfolding count
  count_single zero f i j hi hj le ei ej = absurd (omega arith)
  count_single (suc n) f i j hi hj le ei ej =
      ground (arith, count_single n f i j, count-lt n f i, count-lt n f j)

  -- If there is a count, somebody passes the test.
  pub count_some : (n : ℕ) (f : ℕ → A) → 0 < count n f → (i : ℕ) × (i < n) × (test (f i) ≡ true)
  unfolding count
  count_some zero f h = absurd (omega arith)
  count_some (suc n) f h = elim (Bool-cases (test (f n))) [
    | inl passes ↦ (n, omega arith, passes)
    | inr fails ↦ let (i, lt, e) = count_some n f (ground arith) in (i, omega arith, e)
  ]
