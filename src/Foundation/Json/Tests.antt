-- ===== src/Foundation/Json/Tests.antt =====
-- A value, its text, and the theorem at it.
use server_components.Common.Int.{pos}
use server_components.Common.{ℕ, ◌≤◌, ◌≡◌, refl, true, some, [], ◌++◌, arith, Bytes, bytes}
use server_components.Foundation.Numbers.{string_from_int, digits_from, is_digit}
use server_components.Foundation.Json.{
  Value, integer, boolean, text, array, object, empty_array, item, empty_object, member, json_text,
  to_string, escape_all, escape_byte, escaped_json_string,
}
use server_components.Foundation.Json.Reading.{read_value}
use server_components.Foundation.Json.Entries.{IsExact, fuel_for}
use server_components.Foundation.Json.RoundTrip.{read_value-to_string}

-- The digits of no double are asked for.
abbrev no_digits : ℕ → Bytes
no_digits d = []

abbrev value : Value
value = object (
    member (bytes "a\n") (array (item (integer (pos 12)) (item (text (bytes "x\"")) empty_array)))
      (member (bytes "b") (boolean true) empty_object))

written : to_string no_digits value ≡ bytes "{\"a\\n\":[12,\"x\\\"\"],\"b\":true}"
unfolding json_text escaped_json_string escape_all escape_byte string_from_int digits_from
written = refl

value-IsExact : IsExact value
unfolding IsExact
value-IsExact = ((omega arith, (tt, tt)), (tt, tt))

enough : fuel_for value ≤ 20
unfolding fuel_for
enough = omega arith

read_value-to_string_example :
    read_value 20 (to_string no_digits value ++ bytes ";") ≡ some (value, bytes ";")
unfolding is_digit
read_value-to_string_example =
    read_value-to_string no_digits value 20 (bytes ";") enough value-IsExact refl
