-- ===== src/Keys.antt =====
-- pkg/objectfs/keys.go: which file names are data keys, and the inode number of a key.
pub mod Names
use Prim.Native.Nat.{bit_xor}
use roommate_csi.Prelude.{
  ℕ, ◌*◌, ◌%◌, ◌^◌, Bool, true, false, ◌&&◌, ◌||◌, [], ◌∷◌, length, ltb, leb, ◌==◌, if◌then◌else◌,
}
use roommate_csi.Prelude.Bytes.{Str, str, str_eq}

abbrev pub max_key_len : ℕ
max_key_len = 253

-- The class [-._a-zA-Z0-9].
unfoldable pub key_byte : ℕ → Bool
key_byte c =
    (c == b'-')
    || (c == b'.')
    || (c == b'_')
    || (leb b'a' c && leb c b'z')
    || (leb b'A' c && leb c b'Z')
    || (leb b'0' c && leb c b'9')

unfoldable pub all_key_bytes : Str → Bool
unfolding key_byte
all_key_bytes [] = true
all_key_bytes (c ∷ s) = key_byte c && all_key_bytes s

-- `^[-._a-zA-Z0-9]+$`
unfoldable pub key_pattern : Str → Bool
unfolding all_key_bytes
key_pattern [] = false
key_pattern (c ∷ s) = key_byte c && all_key_bytes s

unfoldable pub valid_key : Str → Bool
unfolding key_pattern
valid_key name =
    if str_eq name []
      || str_eq name (str ".")
      || str_eq name (str "..")
      || ltb max_key_len (length name)
    then false
    else key_pattern name

-- The FNV-64a of hash/fnv.
abbrev pub fnv_offset : ℕ
fnv_offset = 14695981039346656037

abbrev pub fnv_prime : ℕ
fnv_prime = 1099511628211

unfoldable pub fnv_write : ℕ → Str → ℕ
fnv_write h [] = h
fnv_write h (c ∷ s) = fnv_write (bit_xor h c * fnv_prime % 2 ^ 64) s

unfoldable pub hash_key : Str → ℕ
unfolding fnv_write
hash_key key = fnv_write fnv_offset key
