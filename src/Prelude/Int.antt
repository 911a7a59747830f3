-- ===== src/Prelude/Int.antt =====
-- The signed integers that a Go int32 or int64 stands for; `negsuc n` is -(n + 1).
use Prim.Native.Nat.{ℕ, ◌-◌, ◌%◌, ◌^◌}
use mathlib.Core.Bool.{Bool, true}
use roommate_csi.Prelude.Tests.{ltb, if◌then◌else◌}

pub data ℤ : Type 0 where
  pos : ℕ → ℤ
  negsuc : ℕ → ℤ

-- The two's complement reading of a w-bit word: what a Go conversion to intw keeps.
abbrev signed : ℕ → ℕ → ℤ
signed w n =
    if ltb (n % 2 ^ w) (2 ^ w - n % 2 ^ w) then pos (n % 2 ^ w) else negsuc (2 ^ w - n % 2 ^ w - 1)

-- A Go conversion of a non-negative value to int32, and to int64.
unfoldable pub int32 : ℕ → ℤ
int32 n = signed 32 n

unfoldable pub int64 : ℕ → ℤ
int64 n = signed 64 n

-- `n > z` for a non-negative `n`.
abbrev pub exceeds : ℕ → ℤ → Bool
exceeds n (pos d) = ltb d n
exceeds n (negsuc d) = true
