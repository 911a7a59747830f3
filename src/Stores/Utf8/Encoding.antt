-- ===== src/Stores/Utf8/Encoding.antt =====
-- The scan accepts the encodings of characters, and nothing else.
use roommate_csi.Prelude.{
  ℕ, zero, suc, ◌+◌, ◌-◌, ◌*◌, ◌<◌, ◌≡◌, ◌∙◌, ◌&&◌, ◌↔◌, Bool, true, false, List, [], ◌∷◌, ◌++◌,
  ltb, refl, ap, arith, inl, inr, length, Bool-cases,
}
use roommate_csi.Prelude.Bytes.{Bytes}
use roommate_csi.Stores.Utf8.{first_byte, scan, valid_utf8, is_scalar, encode}

scan-encode :
    (c : ℕ) (rest : Bytes)
    → is_scalar c ≡ true
    → scan (encode c ++ rest) 0 0x80 0xBF ≡ scan rest 0 0x80 0xBF
unfolding first_byte scan encode
scan-encode c rest scalar = ground arith

-- The bytes begin with a character, and go on in valid UTF-8.
abbrev Splits : Bytes → Type 0
Splits bytes =
    (c : ℕ) × (rest : Bytes) × (is_scalar c ≡ true)
    × (bytes ≡ encode c ++ rest)
    × (scan rest 0 0x80 0xBF ≡ true)
    × (length rest < length bytes)

ascii-Splits :
    (b : ℕ) (rest : Bytes)
    → ltb b 0x80 ≡ true
    → scan (b ∷ rest) 0 0x80 0xBF ≡ true
    → Splits (b ∷ rest)
unfolding first_byte scan encode
ascii-Splits b rest lt valid = (b, rest, ground arith, ground arith, ground arith, omega arith)

two-Splits :
    (b : ℕ) (rest : Bytes)
    → ltb b 0x80 ≡ false
    → ltb b 0xE0 ≡ true
    → scan (b ∷ rest) 0 0x80 0xBF ≡ true
    → Splits (b ∷ rest)
unfolding first_byte scan encode
two-Splits b [] ge lt valid = absurd (ground arith)
two-Splits b (x ∷ rest) ge lt valid =
    ((b - 0xC0) * 64 + (x - 0x80), rest, ground arith, ground arith, ground arith, omega arith)

three-Splits :
    (b : ℕ) (rest : Bytes)
    → ltb b 0xE0 ≡ false
    → ltb b 0xF0 ≡ true
    → scan (b ∷ rest) 0 0x80 0xBF ≡ true
    → Splits (b ∷ rest)
unfolding first_byte scan encode
three-Splits b [] ge lt valid = absurd (ground arith)
three-Splits b (x ∷ []) ge lt valid = absurd (ground arith)
three-Splits b (x ∷ y ∷ rest) ge lt valid = (
  (b - 0xE0) * 4096 + (x - 0x80) * 64 + (y - 0x80),
  rest,
  ground arith,
  ground arith,
  ground arith,
  omega arith,
)

four-Splits :
    (b : ℕ) (rest : Bytes)
    → ltb b 0xF0 ≡ false
    → scan (b ∷ rest) 0 0x80 0xBF ≡ true
    → Splits (b ∷ rest)
unfolding first_byte scan encode
four-Splits b [] ge valid = absurd (ground arith)
four-Splits b (x ∷ []) ge valid = absurd (ground arith)
four-Splits b (x ∷ y ∷ []) ge valid = absurd (ground arith)
four-Splits b (x ∷ y ∷ z ∷ rest) ge valid = (
  (b - 0xF0) * 262144 + (x - 0x80) * 4096 + (y - 0x80) * 64 + (z - 0x80),
  rest,
  ground arith,
  ground arith,
  ground arith,
  omega arith,
)

scan-Splits : (b : ℕ) (rest : Bytes) → scan (b ∷ rest) 0 0x80 0xBF ≡ true → Splits (b ∷ rest)
scan-Splits b rest valid = elim (Bool-cases (ltb b 0x80)) [
  | inl lt ↦ ascii-Splits b rest lt valid
  | inr ge ↦ elim (Bool-cases (ltb b 0xE0)) [
    | inl lt ↦ two-Splits b rest ge lt valid
    | inr ge2 ↦ elim (Bool-cases (ltb b 0xF0)) [
      | inl lt ↦ three-Splits b rest ge2 lt valid
      | inr ge3 ↦ four-Splits b rest ge3 valid
    ]
  ]
]

abbrev pub all_scalar : List ℕ → Bool
all_scalar [] = true
all_scalar (c ∷ cs) = is_scalar c && all_scalar cs

abbrev pub encode_all : List ℕ → Bytes
encode_all [] = []
encode_all (c ∷ cs) = encode c ++ encode_all cs

scan-encode_all : (cs : List ℕ) → all_scalar cs ≡ true → scan (encode_all cs) 0 0x80 0xBF ≡ true
unfolding scan
scan-encode_all [] every = refl
scan-encode_all (c ∷ cs) every =
    scan-encode c (encode_all cs) (ground arith) ∙ scan-encode_all cs (ground arith)

-- The bytes are the encodings of characters.
abbrev pub IsText : Bytes → Type 0
IsText bytes = (cs : List ℕ) × (all_scalar cs ≡ true) × (bytes ≡ encode_all cs)

scan-IsText :
    (bound : ℕ) (bytes : Bytes)
    → length bytes < bound
    → scan bytes 0 0x80 0xBF ≡ true
    → IsText bytes
scan-IsText zero bytes short valid = absurd (omega arith)
scan-IsText (suc bound) [] short valid = ([], refl, refl)
scan-IsText (suc bound) (b ∷ rest) short valid =
    let (c, more, scalar, starts, goes_on, less) = scan-Splits b rest valid in
    let (cs, every, is) = scan-IsText bound more (omega arith) goes_on in
    (c ∷ cs, ground arith, starts ∙ ap (λ t. encode c ++ t) is)

-- Bytes are accepted as text just when they are the UTF-8 encodings of some sequence of Unicode
-- characters that are not surrogates: no other byte sequence is accepted, be it cut off, longer than
-- needed, a surrogate or beyond the last character, and none of these sequences is refused.
pub valid_utf8_iff : (bytes : Bytes) → (valid_utf8 bytes ≡ true) ↔ IsText bytes
unfolding valid_utf8
valid_utf8_iff bytes = (
  scan-IsText (suc (length bytes)) bytes (omega arith),
  λ (cs, every, is). ap (λ t. scan t 0 0x80 0xBF) is ∙ scan-encode_all cs every,
)
