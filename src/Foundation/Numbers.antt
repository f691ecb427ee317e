-- ===== src/Foundation/Numbers.antt =====
-- Numbers as text: `StringFromInt` of components/foundation/util/types.cpp, and `std::stoll`, which
-- the components call to read a number back. `none` is the exception that `std::stoll` throws.
pub mod RoundTrip
mod Tests
use server_components.Common.Int.{ℤ, pos, negsuc}
use server_components.Common.{
  ℕ, zero, suc, ◌+◌, ◌-◌, ◌*◌, ◌/◌, ◌%◌, Bool, true, false, ◌&&◌, Option, none, some, List, [], ◌∷◌,
  ◌++◌, if◌then◌else◌, leb, ltb, ◌==◌, Bytes, trim_front,
}
use server_components.Foundation.Text.{is_space}

-- The digits of a number, the last one last. The fuel bounds the number of digits.
unfoldable pub digits_from : ℕ → ℕ → Bytes
digits_from zero n = []
digits_from (suc fuel) n =
    let high = digits_from fuel (n / 10) in (if ltb n 10 then [] else high) ++ (b'0' + n % 10) ∷ []

-- `ss << n` for an integer.
unfoldable pub string_from_int : ℤ → Bytes
unfolding digits_from
string_from_int (pos n) = digits_from (suc n) n
string_from_int (negsuc n) = b'-' ∷ digits_from (suc (suc n)) (suc n)

unfoldable pub is_digit : ℕ → Bool
is_digit c = leb b'0' c && leb c b'9'

unfoldable pub starts_with_digit : Bytes → Bool
unfolding is_digit
starts_with_digit [] = false
starts_with_digit (c ∷ s) = is_digit c

-- The value of the digits that a text begins with, onto what has been read.
unfoldable pub read_digits : ℕ → Bytes → ℕ
read_digits acc [] = acc
read_digits acc (c ∷ s) =
    let more = read_digits (acc * 10 + (c - b'0')) s in if is_digit c then more else acc

abbrev pub int64_max : ℕ
int64_max = 9223372036854775807

unfoldable pub unsigned_part : Bytes → Option ℤ
unsigned_part s =
    if starts_with_digit s
    then (if leb (read_digits 0 s) int64_max then some (pos (read_digits 0 s)) else none)
    else none

-- The value behind a minus sign; -2^63 is in range.
unfoldable pub negative_part : Bytes → Option ℤ
negative_part s =
    if starts_with_digit s
    then (if leb (read_digits 0 s) (int64_max + 1)
        then some (if read_digits 0 s == 0 then pos 0 else negsuc (read_digits 0 s - 1))
        else none)
    else none

unfoldable pub signed_part : Bytes → Option ℤ
signed_part [] = none
signed_part (c ∷ s) =
    if c == b'-'
    then negative_part s
    else if c == b'+'
    then unsigned_part s
    else unsigned_part (c ∷ s)

unfoldable pub stoll : Bytes → Option ℤ
stoll s = signed_part (trim_front is_space s)
