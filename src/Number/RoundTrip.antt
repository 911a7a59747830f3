-- ===== src/Number/RoundTrip.antt =====
-- Numerals that are printed and read back.
use roommate_csi.Prelude.{
  ℕ, zero, suc, ◌+◌, ◌*◌, ◌/◌, ◌%◌, ◌^◌, ◌<◌, ◌≡◌, ◌∙◌, refl, ap, inl, inr, Bool-cases, some, [],
  ◌∷◌, arith, ltb,
}
use roommate_csi.Prelude.Bytes.{Str}
use roommate_csi.Number.{
  digit_value, push_digit, parse_digits, parse_uint, format_digits, format_uint,
}

digit_value-digit : (d : ℕ) → d < 10 → digit_value (b'0' + d) ≡ some d
unfolding digit_value
digit_value-digit d h = ground arith

push_digit-digit :
    (m d : ℕ)
    → d < 10
    → m * 10 + d < 2 ^ 64
    → push_digit 10 64 m (digit_value (b'0' + d)) ≡ some (m * 10 + d)
unfolding push_digit
push_digit-digit m d h fits = rw (digit_value-digit d h, push_digit) (ground arith)

parse_digits-digit :
    (m d : ℕ) (rest : Str)
    → d < 10
    → m * 10 + d < 2 ^ 64
    → parse_digits 10 64 (some m) ((b'0' + d) ∷ rest) ≡ parse_digits 10 64 (some (m * 10 + d)) rest
unfolding parse_digits
parse_digits-digit m d rest h fits =
    ap (λ o. parse_digits 10 64 o rest) (push_digit-digit m d h fits)

-- Digits that are printed in front of `rest` are read back as the number.
parse_digits-format_digits :
    (fuel n : ℕ) (rest : Str)
    → n < fuel
    → n < 2 ^ 64
    → parse_digits 10 64 (some 0) (format_digits fuel n rest) ≡ parse_digits 10 64 (some n) rest
unfolding format_digits
parse_digits-format_digits zero n rest h fits = elim h [ ]
parse_digits-format_digits (suc fuel) n rest h fits = elim (Bool-cases (ltb n 10)) [
  | inl small ↦ rw small (
      parse_digits-digit 0 n rest (ground arith) (omega arith)
      ∙ ap (λ k. parse_digits 10 64 (some k) rest) (omega arith))
  | inr large ↦ rw large (
      parse_digits-format_digits fuel (n / 10) ((b'0' + n % 10) ∷ rest) (ground arith) (omega arith)
      ∙ parse_digits-digit (n / 10) (n % 10) rest (omega arith) (omega arith)
      ∙ ap (λ k. parse_digits 10 64 (some k) rest) (omega arith))
]

format_digits-cons :
    (fuel n c : ℕ) (rest : Str) → (d : ℕ) × (s : Str) × (format_digits fuel n (c ∷ rest) ≡ d ∷ s)
unfolding format_digits
format_digits-cons zero n c rest = (c, rest, refl)
format_digits-cons (suc fuel) n c rest = elim (Bool-cases (ltb n 10)) [
  | inl small ↦ (b'0' + n, c ∷ rest, rw small refl)
  | inr large ↦ rw large (format_digits-cons fuel (n / 10) (b'0' + n % 10) (c ∷ rest))
]

format_uint-cons : (n : ℕ) → (d : ℕ) × (s : Str) × (format_uint n ≡ d ∷ s)
unfolding format_uint
format_uint-cons n = elim (Bool-cases (ltb n 10)) [
  | inl small ↦ (b'0' + n, [], rw small refl)
  | inr large ↦ rw large (format_digits-cons n (n / 10) (b'0' + n % 10) [])
]

parse_uint-cons :
    (s : Str) (d : ℕ) (t : Str) → s ≡ d ∷ t → parse_uint 10 64 s ≡ parse_digits 10 64 (some 0) s
unfolding parse_uint
parse_uint-cons s d t e = rw e refl

-- `%d` and then `ParseUint` gives the number back.
pub parse_uint-format_uint : (n : ℕ) → n < 2 ^ 64 → parse_uint 10 64 (format_uint n) ≡ some n
unfolding format_uint parse_digits
parse_uint-format_uint n fits =
    parse_uint-cons (format_uint n) (format_uint-cons n).0 (format_uint-cons n).1
      (format_uint-cons n).2
    ∙ parse_digits-format_digits (suc n) n [] (omega arith) fits
