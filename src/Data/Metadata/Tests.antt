-- ===== src/Data/Metadata/Tests.antt =====
-- Runs of the look-up of columns and of the escaping of names.
use server_components.Common.{◌≡◌, refl, [], ◌∷◌, bytes, ◌++◌, bytes_eq, trim_front}
use server_components.Foundation.Text.{is_space, string_to_bool, string_to_lower}
use server_components.Foundation.Numbers.{
  stoll, signed_part, unsigned_part, starts_with_digit, read_digits,
}
use server_components.Data.Metadata.{
  KeyValueTable, ok, list_columns, find_value, esc_sql_name, get_primary_key,
}

abbrev id_row : KeyValueTable
id_row =
    (bytes "column_name", bytes "id")
    ∷ (bytes "data_type", bytes "bigserial")
    ∷ (bytes "is_unique", bytes "f")
    ∷ (bytes "numeric_precision", bytes "64")
    ∷ (bytes "ordinal_position", bytes "1")
    ∷ (bytes "primary_key", bytes "t")
    ∷ (bytes "udt_name", bytes "int8")
    ∷ []

id_is_primary : get_primary_key (id_row ∷ []) ≡ ok (bytes "id")
unfolding get_primary_key list_columns find_value bytes_eq stoll signed_part trim_front is_space
    unsigned_part starts_with_digit read_digits string_to_bool
id_is_primary = refl

quoted : esc_sql_name (λ n. b'"' ∷ (n ++ b'"' ∷ [])) (bytes "Two words") ≡ bytes "\"two words\""
unfolding esc_sql_name string_to_lower
quoted = refl
