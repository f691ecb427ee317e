-- ===== src/Foundation/Text/Tests.antt =====
-- The text helpers at small inputs, and the theorems at them.
use server_components.Common.{◌≡◌, refl, true, [], ◌∷◌, arith, bytes, bytes_eq, starts_with}
use server_components.Foundation.Text.Templates.{
  literal, column, format_string_lem, format_string-reveals,
}
use server_components.Foundation.Text.{
  string_trim, string_to_bool, string_array_to_comma_separated_string, find_bytes, split_string,
  format_string, is_unreserved, hex_digit, url_encode_byte, url_encode_query_value,
}

helpers :
    (string_trim (bytes "  a b ") ≡ bytes "a b")
    × (string_to_bool (bytes "TRUE") ≡ true)
    × (string_array_to_comma_separated_string (bytes "a" ∷ bytes "b" ∷ []) ≡ bytes "a, b")
    × (format_string (bytes "{n} of {n}") ((bytes "n", bytes "{n}") ∷ []) ≡ bytes "{n} of {n}")
    × (split_string (bytes "key==value==x") (bytes "==") ≡ (bytes "key", bytes "value==x"))
    × (url_encode_query_value (bytes "a b&c") ≡ bytes "a%20b%26c")
unfolding string_trim string_to_bool string_array_to_comma_separated_string find_bytes split_string
    starts_with format_string is_unreserved hex_digit url_encode_byte url_encode_query_value
helpers = (refl, refl, refl, refl, refl, refl)

format_string_lem_example :
    format_string (bytes "Hi {name}") ((bytes "name", bytes "Ann") ∷ []) ≡ bytes "Hi Ann"
unfolding bytes_eq
format_string_lem_example =
    format_string_lem ((bytes "name", bytes "Ann") ∷ [])
      (literal (bytes "Hi ") ∷ column (bytes "name") ∷ []) (omega arith) (omega arith)

-- Someone whose name is a placeholder is shown with the hash of the password.
format_string-reveals_example :
    format_string
      (bytes "{name}")
      ((bytes "name", bytes "{password_hash}") ∷ (bytes "password_hash", bytes "h1") ∷ [])
    ≡ bytes "h1"
unfolding bytes_eq
format_string-reveals_example =
    format_string-reveals (bytes "name") (bytes "password_hash")
      ((bytes "password_hash", bytes "h1") ∷ []) (column (bytes "name") ∷ []) (omega arith)
      (omega arith) (omega arith) (omega arith)
