-- ===== src/Keys/Names.antt =====
-- `ValidKey` of pkg/objectfs/keys.go against a description of the names it admits.
use roommate_csi.Prelude.{ℕ, ◌≤◌, ◌≡◌, ◌≢◌, ◌↔◌, ◌⊎◌, refl, true, [], ◌∷◌, length, All, arith}
use roommate_csi.Prelude.Bytes.{Str, str, str_eq_iff}
use roommate_csi.Keys.{key_byte, all_key_bytes, key_pattern, valid_key}

-- A letter, a digit, a dash, a dot or an underscore.
abbrev pub IsKeyByte : ℕ → Type 0
IsKeyByte c =
    (c ≡ b'-')
    ⊎ (c ≡ b'.')
    ⊎ (c ≡ b'_')
    ⊎ ((b'a' ≤ c) × (c ≤ b'z'))
    ⊎ ((b'A' ≤ c) × (c ≤ b'Z'))
    ⊎ ((b'0' ≤ c) × (c ≤ b'9'))

key_byte_iff : (c : ℕ) → (key_byte c ≡ true) ↔ IsKeyByte c
unfolding key_byte
key_byte_iff c = (ground arith, ground arith)

all_key_bytes_iff : (s : Str) → (all_key_bytes s ≡ true) ↔ All IsKeyByte s
unfolding all_key_bytes
all_key_bytes_iff [] = (λ _. tt, λ _. refl)
all_key_bytes_iff (c ∷ s) = (
  λ h. ((key_byte_iff c).0 (ground arith), (all_key_bytes_iff s).0 (ground arith)),
  λ h. ground (arith, (key_byte_iff c).1 h.0, (all_key_bytes_iff s).1 h.1),
)

-- A name that can be a data key, and one component of a path.
pub record IsKey (name : Str) : Type 0 where
  pub named : name ≢ []
  pub not_self : name ≢ str "."
  pub not_parent : name ≢ str ".."
  pub fits : length name ≤ 253
  pub bytes : All IsKeyByte name

pattern_of_bytes : (s : Str) → s ≢ [] → key_pattern s ≡ all_key_bytes s
unfolding key_pattern all_key_bytes
pattern_of_bytes [] h = absurd (h refl)
pattern_of_bytes (c ∷ s) h = refl

valid_key_sound : (name : Str) → valid_key name ≡ true → IsKey name
unfolding valid_key
valid_key_sound name h = record {
  named = ground (arith, str_eq_iff name []);
  not_self = ground (arith, str_eq_iff name (str "."));
  not_parent = ground (arith, str_eq_iff name (str ".."));
  fits = ground arith;
  bytes =
      (all_key_bytes_iff name).0
        (ground (arith, pattern_of_bytes name (ground (arith, str_eq_iff name []))));
}

valid_key_complete : (name : Str) → IsKey name → valid_key name ≡ true
unfolding valid_key
valid_key_complete name k = ground (
  arith,
  str_eq_iff name [],
  str_eq_iff name (str "."),
  str_eq_iff name (str ".."),
  pattern_of_bytes name k.named,
  (all_key_bytes_iff name).1 k.bytes,
)

-- A name is accepted exactly when it is not empty, "." or "..", has at most 253 bytes, and every
-- byte is a letter, a digit, a dash, a dot or an underscore.
pub valid_key_iff : (name : Str) → (valid_key name ≡ true) ↔ IsKey name
valid_key_iff name = (valid_key_sound name, valid_key_complete name)
