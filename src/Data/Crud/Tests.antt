-- ===== src/Data/Crud/Tests.antt =====
-- Statements on a small table, and the theorems at them.
use server_components.Common.Int.{pos}
use server_components.Common.{
  ℕ, suc, ◌≡◌, refl, find_byte, true, false, List, [], ◌∷◌, ◌++◌, Bytes, bytes, arith, bytes_eq,
  trim_front,
}
use server_components.Foundation.Text.{is_space, string_to_bool}
use server_components.Foundation.Numbers.{
  stoll, signed_part, unsigned_part, starts_with_digit, read_digits,
}
use server_components.Data.Metadata.{
  KeyValueTable, DatabaseColumnInfo, ok, Result, list_columns, find_value,
}
use server_components.Data.Crud.Params.{
  set_contains, no_params, check_keys_in_table, find_info, put_info, column_info_table_from,
  generate_database_column_info_table,
}
use server_components.Data.Crud.Statements.{generate_add_row_to_table_sql}
use server_components.Data.Crud.Operations.{add_row_to_table, update_row, delete_rows}
use server_components.Data.Crud.Binding.{slots}
use server_components.Data.Crud.Injection.{SameTexts, text-ignores_values}
use server_components.Data.Crud.Meaning.{Updates, generate_update_row_sql_lem}
use server_components.Data.Crud.Refusing.{IsRefused, unknown_key-IsRefused}
use server_components.Data.Crud.Paging.{IsPage, generate_get_rows_by_values_sql_lem}
use server_components.Data.Crud.Templates.{
  template_columns_from, parse_template_columns, parse_template_columns_lem,
  parse_template_columns-fuel,
}
use server_components.Foundation.Text.Templates.{literal, column}

abbrev catalogue_row : Bytes → Bytes → Bytes → KeyValueTable
catalogue_row name position type =
    (bytes "column_name", name)
    ∷ (bytes "data_type", type)
    ∷ (bytes "is_unique", bytes "f")
    ∷ (bytes "numeric_precision", bytes "0")
    ∷ (bytes "ordinal_position", position)
    ∷ (bytes "primary_key", bytes "f")
    ∷ (bytes "udt_name", type)
    ∷ []

abbrev catalogue : Bytes → List KeyValueTable
catalogue table =
    catalogue_row (bytes "id") (bytes "1") (bytes "int8")
    ∷ catalogue_row (bytes "name") (bytes "2") (bytes "text")
    ∷ []

abbrev info : Bytes → ℕ → Bytes → DatabaseColumnInfo
info name position type = record {
  column_name = name;
  ordinal_position = pos position;
  data_type = type;
  numeric_precision = pos 0;
  udt_name = type;
  primary_key = false;
  unique = false;
}

abbrev infos : List DatabaseColumnInfo
infos = info (bytes "id") 1 (bytes "int8") ∷ info (bytes "name") 2 (bytes "text") ∷ []

listed : (table : Bytes) → list_columns (catalogue table) ≡ ok infos
unfolding list_columns find_value bytes_eq stoll signed_part trim_front is_space unsigned_part
    starts_with_digit read_digits string_to_bool
listed table = refl

-- Names are quoted by surrounding them.
abbrev quote : Bytes → Bytes
quote name = b'"' ∷ (name ++ bytes "\"")

abbrev drop_table : KeyValueTable
drop_table = (bytes "name", bytes "'; DROP TABLE people; --") ∷ []

abbrev plain : KeyValueTable
plain = (bytes "name", bytes "Ann") ∷ []

abbrev unknown : KeyValueTable
unknown = (bytes "salary", bytes "1") ∷ []

not_keywords : slots (bytes "now_us()" ∷ []) plain ≡ slots (bytes "now_us()" ∷ []) drop_table
unfolding set_contains bytes_eq
not_keywords = refl

text-ignores_values_example :
    SameTexts quote catalogue
      (bytes "people")
      (bytes "id")
      (bytes "1")
      (bytes "2")
      true
      (pos 10)
      (pos 0)
      (bytes "now_us()" ∷ [])
      plain
      drop_table
      no_params
text-ignores_values_example =
    text-ignores_values quote catalogue (bytes "people") (bytes "id") (bytes "1") (bytes "2") true
      (pos 10) (pos 0) (bytes "now_us()" ∷ []) plain drop_table no_params refl not_keywords

generate_update_row_sql_lem_example :
    Updates quote catalogue
      (bytes "people")
      (bytes "id")
      (bytes "7")
      drop_table
      (bytes "now_us()" ∷ [])
unfolding bytes_eq
generate_update_row_sql_lem_example =
    generate_update_row_sql_lem quote catalogue (bytes "people") (bytes "id") (bytes "7") drop_table
      (bytes "now_us()" ∷ []) (listed (bytes "people")) refl refl refl

-- A database that counts the statements that it is sent.
abbrev count_statement : Bytes → List Bytes → ℕ → Result (List KeyValueTable) × ℕ
count_statement text params sent = (ok [], suc sent)

unknown_key-IsRefused_example :
    IsRefused 5 (add_row_to_table quote catalogue count_statement (bytes "people") unknown [] 5)
    × IsRefused 5 (
        update_row quote catalogue count_statement
          (bytes "people")
          (bytes "id")
          (bytes "7")
          unknown
          []
          5)
    × IsRefused 5 (delete_rows quote catalogue count_statement (bytes "people") unknown 5)
unfolding bytes_eq
unknown_key-IsRefused_example =
    unknown_key-IsRefused quote catalogue count_statement (bytes "people") (bytes "id") (bytes "7")
      unknown [] 5 (listed (bytes "people")) refl

known_key_is_sent :
    (add_row_to_table quote catalogue count_statement (bytes "people") plain [] 5).1 ≡ 6
unfolding add_row_to_table generate_add_row_to_table_sql check_keys_in_table find_info put_info
    column_info_table_from list_columns find_value bytes_eq stoll signed_part trim_front is_space
    unsigned_part starts_with_digit read_digits string_to_bool generate_database_column_info_table
known_key_is_sent = refl

generate_get_rows_by_values_sql_lem_example :
    IsPage quote catalogue (bytes "people") (bytes "name") plain true 50000 50000
unfolding bytes_eq
generate_get_rows_by_values_sql_lem_example =
    generate_get_rows_by_values_sql_lem quote catalogue (bytes "people") (bytes "name") plain true
      50000 50000 (listed (bytes "people")) refl refl refl

parse_template_columns_lem_example :
    parse_template_columns (bytes "{first}, {last}.") ≡ bytes "first" ∷ bytes "last" ∷ []
parse_template_columns_lem_example =
    parse_template_columns_lem
      (column (bytes "first")
        ∷ literal (bytes ", ")
        ∷ column (bytes "last")
        ∷ literal (bytes ".")
        ∷ [])
      (omega arith)

parse_template_columns-fuel_example :
    template_columns_from 9 (bytes "{a}{b") ≡ parse_template_columns (bytes "{a}{b")
parse_template_columns-fuel_example = parse_template_columns-fuel 9 (bytes "{a}{b") (omega arith)

one_column_is_found : parse_template_columns (bytes "{a}{b") ≡ bytes "a" ∷ []
unfolding parse_template_columns find_byte
one_column_is_found = refl
