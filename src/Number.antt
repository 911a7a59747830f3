-- ===== src/Number.antt =====
-- The numerals of strconv and fmt as the program uses them: `ParseUint` and `Atoi` with an error on
-- overflow, and `%d` of a uint64.
pub mod RoundTrip
use roommate_csi.Prelude.{
  ℕ, ◌+◌, ◌-◌, ◌*◌, ◌/◌, ◌%◌, ◌^◌, Bool, true, false, ◌&&◌, ◌==◌, zero, suc, Option, none, some, [],
  ◌∷◌, ltb, leb, if◌then◌else◌,
}
use roommate_csi.Prelude.Bytes.{Str}
use roommate_csi.Prelude.Int.{ℤ, pos, negsuc}

unfoldable pub digit_value : ℕ → Option ℕ
digit_value c =
    if leb b'0' c && leb c b'9'
    then some (c - b'0')
    else if leb b'a' c && leb c b'z'
    then some (c - b'a' + 10)
    else if leb b'A' c && leb c b'Z'
    then some (c - b'A' + 10)
    else none

-- The value read so far and one more digit.
unfoldable pub push_digit : ℕ → ℕ → ℕ → Option ℕ → Option ℕ
push_digit base bits n none = none
push_digit base bits n (some d) =
    if leb base d then none else if ltb (n * base + d) (2 ^ bits) then some (n * base + d) else none

unfoldable pub parse_digits : ℕ → ℕ → Option ℕ → Str → Option ℕ
unfolding digit_value push_digit
parse_digits base bits none s = none
parse_digits base bits (some n) [] = some n
parse_digits base bits (some n) (c ∷ s) =
    parse_digits base bits (push_digit base bits n (digit_value c)) s

unfoldable pub parse_uint : ℕ → ℕ → Str → Option ℕ
unfolding parse_digits
parse_uint base bits [] = none
parse_uint base bits (c ∷ s) = parse_digits base bits (some 0) (c ∷ s)

-- A magnitude as an int64, if it fits: at most 2^63 - 1, or 2^63 below zero.
unfoldable pub to_int64 : Bool → Option ℕ → Option ℤ
to_int64 negative none = none
to_int64 false (some n) = if ltb n (2 ^ 63) then some (pos n) else none
to_int64 true (some zero) = some (pos 0)
to_int64 true (some (suc n)) = if ltb n (2 ^ 63) then some (negsuc n) else none

-- strconv.Atoi: one sign may stand in front.
unfoldable pub atoi : Str → Option ℤ
unfolding parse_uint to_int64
atoi [] = none
atoi (c ∷ s) =
    if c == b'-'
    then to_int64 true (parse_uint 10 64 s)
    else if c == b'+'
    then to_int64 false (parse_uint 10 64 s)
    else to_int64 false (parse_uint 10 64 (c ∷ s))

-- The decimal digits of `n` in front of `rest`, one for each unit of fuel at most.
unfoldable pub format_digits : ℕ → ℕ → Str → Str
format_digits zero n rest = rest
format_digits (suc fuel) n rest =
    let more = format_digits fuel (n / 10) ((b'0' + n % 10) ∷ rest) in
    if ltb n 10 then (b'0' + n) ∷ rest else more

-- `%d`; a number has fewer digits than `n + 1`.
unfoldable pub format_uint : ℕ → Str
unfolding format_digits
format_uint n = format_digits (suc n) n []
