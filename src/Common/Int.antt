-- ===== src/Common/Int.antt =====
-- Go's int as a signed number: strconv.FormatInt and strconv.Atoi.
use Prim.Native.Nat.{ℕ, zero, suc, ◌+◌, ◌-◌, ◌*◌, ◌/◌, ◌%◌, ◌^◌}
use mathlib.Core.Bool.{Bool, true, false, ◌&&◌}
use mathlib.Core.List.{[], ◌∷◌, ◌++◌}
use mathlib.Core.Option.{Option, none, some}
use rowset_studio.Common.Logic.{ltb, leb, ◌==◌, if◌then◌else◌}
use rowset_studio.Common.Text.{Bytes}

-- A number of the source that is stored, compared, parsed or printed.
pub data ℤ : Type 0 where
  pos negsuc : ℕ → ℤ

-- The decimal digits of a number below 10 ^ 20.
digits : ℕ → ℕ → Bytes
digits zero n = []
digits (suc fuel) n =
    let rest = digits fuel (n / 10) in
    if ltb n 10 then (n + 48) ∷ [] else rest ++ ((n % 10 + 48) ∷ [])

-- strconv.FormatInt in base 10; an int64 has at most 19 digits.
unfoldable pub format_int : ℤ → Bytes
unfolding digits
format_int (pos n) = digits 20 n
format_int (negsuc n) = 45 ∷ digits 20 (suc n)

unfoldable pub is_number : ℤ → ℕ → Bool
is_number (pos m) n = m == n
is_number (negsuc m) n = false

-- The number, if it is not negative.
abbrev pub natural : ℤ → Option ℕ
natural (pos n) = some n
natural (negsuc n) = none

abbrev pub is_digit : ℕ → Bool
is_digit c = leb b'0' c && leb c b'9'

-- What strconv.ParseUint says of decimal digits: the number, no number, or one beyond 64 bits.
pub data Parsed : Type 0 where
  number : ℕ → Parsed
  no_number out_of_range : Parsed

parse_digits : ℕ → Bytes → Parsed
parse_digits n [] = number n
parse_digits n (c ∷ cs) =
    let next = n * 10 + (c - b'0') in
    let rest = parse_digits next cs in
    if is_digit c then (if ltb next (2 ^ 64) then rest else out_of_range) else no_number

unsigned : Bytes → Parsed
unfolding parse_digits
unsigned [] = no_number
unsigned (c ∷ cs) = parse_digits 0 (c ∷ cs)

-- The sign, and the bound of int64: the value beside whether there is no error.
signed : Bool → Parsed → ℤ × Bool
signed negative no_number = (pos 0, false)
signed false out_of_range = (pos (2 ^ 63 - 1), false)
signed true out_of_range = (negsuc (2 ^ 63 - 1), false)
signed false (number n) = if ltb n (2 ^ 63) then (pos n, true) else (pos (2 ^ 63 - 1), false)
signed true (number zero) = (pos 0, true)
signed true (number (suc n)) =
    if ltb n (2 ^ 63) then (negsuc n, true) else (negsuc (2 ^ 63 - 1), false)

-- strconv.Atoi, where int has 64 bits.
unfoldable pub atoi : Bytes → ℤ × Bool
unfolding signed unsigned parse_digits
atoi [] = (pos 0, false)
atoi (c ∷ cs) =
    if c == b'-'
    then signed true (unsigned cs)
    else if c == b'+'
    then signed false (unsigned cs)
    else signed false (unsigned (c ∷ cs))
