-- ===== src/Foundation/Numbers/Tests.antt =====
-- Numbers read and printed at small inputs.
use server_components.Common.Int.{pos, negsuc}
use server_components.Common.{◌≡◌, refl, none, some, bytes, trim_front}
use server_components.Foundation.Text.{is_space}
use server_components.Foundation.Numbers.{
  string_from_int, is_digit, starts_with_digit, read_digits, unsigned_part, negative_part,
  signed_part, stoll,
}

numbers :
    (string_from_int (negsuc 41) ≡ bytes "-42")
    × (stoll (bytes " +42 apples") ≡ some (pos 42))
    × (stoll (bytes "apples") ≡ none)
    × (stoll (bytes "-9223372036854775808") ≡ some (negsuc 9223372036854775807))
    × (stoll (bytes "9223372036854775808") ≡ none)
unfolding string_from_int stoll signed_part unsigned_part negative_part read_digits
    starts_with_digit is_digit trim_front is_space
numbers = (refl, refl, refl, refl, refl)
