-- ===== src/Data/Crud/Operations.antt =====
-- The namespace `DbCrud` of components/data/sql_util/database_access/database_crud_helpers.cpp: each operation
-- builds a statement and has the transaction run it.
--
-- The database with its transaction is a parameter: `run` executes a statement with its parameters and returns
-- the rows, or throws; `first_row` and `first_value` are what the other two forms take from them.
use server_components.Common.Int.{ℤ, pos}
use server_components.Common.{
  Bool, true, false, none, some, List, [], ◌∷◌, ◌++◌, if◌then◌else◌, Bytes, bytes, bytes_eq,
  is_empty, keep, not, map,
}
use server_components.Foundation.Text.{string_array_to_comma_separated_string}
use server_components.Foundation.Numbers.{string_from_int, stoll}
use server_components.Data.Metadata.{
  Result, ok, invalid_argument, out_of_range, undefined, ◌>>=◌, KeyValueTable, DatabaseColumnInfo,
  find_value, list_columns, stoi, string_array_from_database_column_info_array,
}
use server_components.Data.Crud.Params.{ExecParamsHelper, no_params, add_param, esc}
use server_components.Data.Crud.Statements.{
  Prepared, int_mul, generate_add_row_to_table_sql,
  generate_add_row_to_table_fetch_int_primary_key_sql, generate_lookup_row_by_value_sql,
  generate_lookup_row_by_values_sql, generate_get_rows_by_column_sql, generate_update_row_sql,
  generate_delete_row_sql, generate_delete_rows_sql,
}
use server_components.Data.Crud.Queries.{
  generate_get_rows_by_values_with_order_by_sql, generate_get_rows_by_values_sql,
  generate_search_rows_by_i_like_sql,
}

-- `std::stoll`, whose two exceptions are not told apart.
unfoldable pub stoll_or_throw : Bytes → Result ℤ
stoll_or_throw s = elim (stoll s) [ some n ↦ ok n | none ↦ invalid_argument (bytes "stoll") ]

abbrev pub total_count_key : Bytes
total_count_key = bytes "_total_count"

-- `row.erase("_total_count")`
unfoldable pub erase_total : KeyValueTable → KeyValueTable
erase_total row = keep (λ entry. not (bytes_eq entry.0 total_count_key)) row

-- `results[0]["_total_count"]`; a missing entry reads as the empty text.
unfoldable pub total_text : KeyValueTable → Bytes
total_text row = elim (find_value total_count_key row) [ some text ↦ text | none ↦ [] ]

-- `ExtractTotalCount`; the flag says whether the caller wants the total, and 0 stands for none.
unfoldable pub extract_total_count : Bool → List KeyValueTable → Result (List KeyValueTable × ℤ)
unfolding erase_total total_text stoll_or_throw
extract_total_count wanted [] = ok ([], pos 0)
extract_total_count true (row ∷ rows) = do
  total ← stoll_or_throw (total_text row)
  ok (map erase_total (row ∷ rows), total)
extract_total_count false (row ∷ rows) = ok (map erase_total (row ∷ rows), pos 0)

-- `DbUtil::GenerateSelectStatementFromTableAndInfo`
unfoldable pub generate_select_statement_from_table_and_info :
    Bytes → List DatabaseColumnInfo → Bytes
generate_select_statement_from_table_and_info table_name infos =
    bytes "SELECT "
    ++ (string_array_to_comma_separated_string (string_array_from_database_column_info_array infos)
        ++ (bytes " FROM " ++ table_name))

-- The loop of `LookupRowsByPrimaryKeyValues`.
unfoldable pub value_params : List Bytes → ExecParamsHelper → List Bytes × ExecParamsHelper
value_params [] helper = ([], helper)
value_params (value ∷ values) helper =
    let (param, added) = add_param value helper in
    let (later, all_added) = value_params values added in (param ∷ later, all_added)

-- What is made of the rows, which may throw.
abbrev pub returning {ℓ} :
    {A : Type ℓ} {Db : Type 0}
    → (List KeyValueTable → Result A)
    → Result (List KeyValueTable) × Db
    → Result A × Db
returning f (rows, db) = (rows >>= f, db)

abbrev pub no_result : List KeyValueTable → Result (Unit {0})
no_result rows = ok tt

-- `RunSqlStatementReturningOneRow`: the empty table when there is no row.
abbrev pub first_row : List KeyValueTable → Result KeyValueTable
first_row [] = ok []
first_row (row ∷ rows) = ok row

-- `RunSqlStatementReturningOneValue`: exactly one row is expected, and its first field returned.
abbrev pub one_value : List KeyValueTable → Result Bytes
one_value ((entry ∷ row) ∷ []) = ok entry.1
one_value _ = out_of_range

unfoldable pub with_params : Result Bytes → List Bytes → Result Prepared
with_params sql params = sql >>= λ text. ok (text, record { count = 1; params = params })

module _ {Db : Type 0} (quote_name : Bytes → Bytes) (columns_of : Bytes → List KeyValueTable)
    (run : Bytes → List Bytes → Db → Result (List KeyValueTable) × Db) where
  -- Building a statement, and running it if it was built.
  unfoldable pub run_prepared : Result Prepared → Db → Result (List KeyValueTable) × Db
  run_prepared (ok p) db = run p.0 p.1.params db
  run_prepared (invalid_argument what) db = (invalid_argument what, db)
  run_prepared out_of_range db = (out_of_range, db)
  run_prepared undefined db = (undefined, db)

  unfoldable pub add_row_to_table : Bytes → KeyValueTable → List Bytes → Db → Result (Unit {0}) × Db
  unfolding run_prepared
  add_row_to_table table_name table allowed db = returning no_result (
      run_prepared
        (generate_add_row_to_table_sql quote_name columns_of table_name table allowed no_params) db)

  unfoldable pub add_row_to_table_fetch_int64_primary_key :
      Bytes → KeyValueTable → List Bytes → Db → Result ℤ × Db
  unfolding run_prepared stoll_or_throw
  add_row_to_table_fetch_int64_primary_key table_name table allowed db =
      returning
        (λ rows. do
          id ← one_value rows
          if is_empty id
              then invalid_argument
                  (bytes "AddRowToTableFetchInt64PrimaryKey - Most likely duplicate email.")
              else stoll_or_throw id)
        (run_prepared
          (generate_add_row_to_table_fetch_int_primary_key_sql quote_name columns_of table_name
            table allowed no_params)
          db)

  unfoldable pub add_row_to_table_fetch_int_primary_key :
      Bytes → KeyValueTable → List Bytes → Db → Result ℤ × Db
  unfolding run_prepared stoi
  add_row_to_table_fetch_int_primary_key table_name table allowed db =
      returning
        (λ rows. do
          id ← one_value rows
          if is_empty id
              then invalid_argument
                  (bytes "AddRowToTableFetchIntPrimaryKey - Most likely duplicate email.")
              else stoi id)
        (run_prepared
          (generate_add_row_to_table_fetch_int_primary_key_sql quote_name columns_of table_name
            table allowed no_params)
          db)

  -- The names of the columns and of the table stand in the text as they are.
  unfoldable pub get_table_rows : Bytes → Db → Result (List KeyValueTable) × Db
  unfolding run_prepared
  get_table_rows table_name db =
      run_prepared
        (do
          infos ← list_columns (columns_of table_name)
          ok (generate_select_statement_from_table_and_info table_name infos, no_params))
        db

  -- `LookupRowByValue` and `GetRow`.
  unfoldable pub lookup_row_by_value : Bytes → Bytes → Bytes → Db → Result KeyValueTable × Db
  unfolding run_prepared with_params
  lookup_row_by_value table_name column_name lookup_value db = returning first_row (
      run_prepared
        (with_params (generate_lookup_row_by_value_sql quote_name columns_of table_name column_name)
          (lookup_value ∷ []))
        db)

  unfoldable pub lookup_row_by_values : Bytes → KeyValueTable → Db → Result KeyValueTable × Db
  unfolding run_prepared
  lookup_row_by_values table_name lookup_values db = returning first_row (
      run_prepared
        (generate_lookup_row_by_values_sql quote_name columns_of table_name lookup_values no_params)
        db)

  unfoldable pub get_rows_by_column :
      Bytes → Bytes → Bool → ℤ → ℤ → Db → Result (List KeyValueTable) × Db
  unfolding run_prepared with_params int_mul
  get_rows_by_column table_name column_name asc page_size page db =
      run_prepared
        (do
          text ← generate_get_rows_by_column_sql quote_name columns_of table_name column_name asc
          offset ← int_mul page page_size
          ok (
            text,
            record { count = 3; params = string_from_int page_size ∷ string_from_int offset ∷ [] },
          ))
        db

  unfoldable pub get_rows_by_values :
      Bytes
      → Bytes
      → KeyValueTable
      → Bool
      → ℤ
      → ℤ
      → Bool
      → Db
      → Result (List KeyValueTable × ℤ) × Db
  unfolding run_prepared
  get_rows_by_values table_name sort_column_name lookup_values asc page_size page wanted db =
      returning (extract_total_count wanted) (
        run_prepared
          (generate_get_rows_by_values_sql quote_name columns_of table_name sort_column_name
            lookup_values asc page_size page no_params)
          db)

  unfoldable pub get_rows_by_values_with_order_by :
      Bytes → KeyValueTable → Bytes → Bool → Db → Result (List KeyValueTable) × Db
  unfolding run_prepared
  get_rows_by_values_with_order_by table_name lookup_values order_by_column asc db =
      run_prepared
        (generate_get_rows_by_values_with_order_by_sql quote_name columns_of table_name
          lookup_values order_by_column asc no_params)
        db

  unfoldable pub get_table_row_count : Bytes → Db → Result ℤ × Db
  unfolding stoll_or_throw
  get_table_row_count table_name db =
      returning (λ rows. one_value rows >>= stoll_or_throw)
        (run (bytes "SELECT COUNT(*) FROM " ++ esc quote_name table_name) [] db)

  unfoldable pub update_row :
      Bytes → Bytes → Bytes → KeyValueTable → List Bytes → Db → Result (Unit {0}) × Db
  unfolding run_prepared
  update_row table_name column_name column_value table allowed db = returning no_result (
      run_prepared
        (generate_update_row_sql quote_name columns_of table_name column_name column_value table
          allowed no_params)
        db)

  unfoldable pub delete_row : Bytes → Bytes → Bytes → Db → Result (Unit {0}) × Db
  unfolding run_prepared with_params
  delete_row table_name column_name column_value db = returning no_result (
      run_prepared
        (with_params (generate_delete_row_sql quote_name columns_of table_name column_name)
          (column_value ∷ []))
        db)

  unfoldable pub delete_rows : Bytes → KeyValueTable → Db → Result (Unit {0}) × Db
  unfolding run_prepared
  delete_rows table_name table db =
      returning no_result (
        run_prepared (generate_delete_rows_sql quote_name columns_of table_name table no_params) db)

  unfoldable pub search_rows_by_i_like :
      Bytes
      → Bytes
      → List Bytes
      → Bytes
      → Bool
      → ℤ
      → ℤ
      → Bool
      → Db
      → Result (List KeyValueTable × ℤ) × Db
  unfolding run_prepared
  search_rows_by_i_like table_name sort_column_name search_columns search_text asc page_size page
        wanted db =
      returning (extract_total_count wanted) (
        run_prepared
          (generate_search_rows_by_i_like_sql quote_name columns_of table_name sort_column_name
            search_columns search_text asc page_size page no_params)
          db)

  unfoldable pub lookup_rows_by_primary_key_values :
      Bytes → Bytes → List Bytes → Db → Result (List KeyValueTable) × Db
  unfolding value_params
  lookup_rows_by_primary_key_values table_name primary_key_column [] db = (ok [], db)
  lookup_rows_by_primary_key_values table_name primary_key_column (value ∷ values) db =
      let (placeholders, helper) = value_params (value ∷ values) no_params in
      run
        (bytes "SELECT * FROM "
          ++ (esc quote_name table_name
              ++ (bytes " WHERE "
                  ++ (esc quote_name primary_key_column
                      ++ (bytes " IN ("
                          ++ (string_array_to_comma_separated_string placeholders ++ bytes ")"))))))
        helper.params db
