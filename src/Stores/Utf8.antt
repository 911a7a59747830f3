-- ===== src/Stores/Utf8.antt =====
-- `utf8.Valid` of Go's standard library, by which pkg/objectfs/store_configmap.go tells text from
-- binary data: a scan that knows how many bytes of a character are still to come, and between which
-- bounds the next one lies.
pub mod Encoding
use roommate_csi.Prelude.{
  ℕ, zero, suc, ◌+◌, ◌/◌, ◌%◌, ◌==◌, not, ◌&&◌, Bool, true, false, Option, none, some, [], ◌∷◌, ltb,
  if◌then◌else◌,
}
use roommate_csi.Prelude.Bytes.{Bytes}

-- What must follow a first byte: how many bytes, and the bounds of the next one.
pub record Follow : Type 0 where
  pub count : ℕ
  pub low : ℕ
  pub high : ℕ

abbrev pub within : ℕ → ℕ → ℕ → Bool
within low high b = ltb b (suc high) && ltb low (suc b)

abbrev pub follow : ℕ → ℕ → ℕ → Option Follow
follow n low high = some (record { count = n; low = low; high = high })

unfoldable pub first_byte : ℕ → Option Follow
first_byte b =
    if ltb b 0x80
    then follow 0 0x80 0xBF
    else if within 0xC2 0xDF b
    then follow 1 0x80 0xBF
    else if b == 0xE0
    then follow 2 0xA0 0xBF
    else if b == 0xED
    then follow 2 0x80 0x9F
    else if within 0xE1 0xEF b
    then follow 2 0x80 0xBF
    else if b == 0xF0
    then follow 3 0x90 0xBF
    else if within 0xF1 0xF3 b
    then follow 3 0x80 0xBF
    else if b == 0xF4
    then follow 3 0x80 0x8F
    else none

abbrev pub follows : (ℕ → ℕ → ℕ → Bool) → Option Follow → Bool
follows scan_rest none = false
follows scan_rest (some f) = scan_rest f.count f.low f.high

-- Whether the bytes go on with `n` bytes of a character, the first of them within the bounds.
unfoldable pub scan : Bytes → ℕ → ℕ → ℕ → Bool
unfolding first_byte
scan [] zero low high = true
scan [] (suc n) low high = false
scan (b ∷ rest) zero low high = follows (scan rest) (first_byte b)
scan (b ∷ rest) (suc n) low high = let after = scan rest n 0x80 0xBF in within low high b && after

unfoldable pub valid_utf8 : Bytes → Bool
unfolding scan
valid_utf8 bytes = scan bytes 0 0x80 0xBF

-- A Unicode character that is not a surrogate, and its encoding, as RFC 3629 defines them.
abbrev pub is_scalar : ℕ → Bool
is_scalar c = ltb c 0x110000 && not (within 0xD800 0xDFFF c)

unfoldable pub encode : ℕ → Bytes
encode c =
    if ltb c 0x80
    then c ∷ []
    else if ltb c 0x800
    then (0xC0 + c / 64) ∷ (0x80 + c % 64) ∷ []
    else if ltb c 0x10000
    then (0xE0 + c / 4096) ∷ (0x80 + c / 64 % 64) ∷ (0x80 + c % 64) ∷ []
    else (0xF0 + c / 262144) ∷ (0x80 + c / 4096 % 64) ∷ (0x80 + c / 64 % 64) ∷ (0x80 + c % 64) ∷ []
