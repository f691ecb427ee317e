-- ===== src/Data/Crud/Statements.antt =====
-- The namespace `PrivateSql` of components/data/sql_util/database_access/database_crud_helpers.cpp: the text
-- of each statement and the parameters that it is sent with.
--
-- `columns_of` stands for the rows that the catalogue answers for a table (`DbMeta::ListColumns`), and
-- `quote_name` for that of libpqxx. A multiplication of `int`s that overflows is `undefined`.
use server_components.Common.Int.{ℤ, pos, negsuc, pos_part, neg_part, sub_ℕ, leb_ℤ}
use server_components.Common.{
  ◌+◌, ◌*◌, Bool, true, false, ◌&&◌, none, some, List, [], ◌∷◌, ◌++◌, if◌then◌else◌, Bytes, bytes,
}
use server_components.Foundation.Numbers.{string_from_int}
use server_components.Data.Metadata.{
  Result, ok, invalid_argument, undefined, ◌>>=◌, ◌>>◌, KeyValueTable, DatabaseColumnInfo,
  list_columns, get_primary_key,
}
use server_components.Data.Crud.Params.{
  ExecParamsHelper, add_param, generate_insert_params, ColumnInfoTable,
  generate_database_column_info_table, find_info, check_keys_in_table, lookup_column, esc,
  generate_insert_column_names, names, where_clause,
}

-- A statement with its parameters.
abbrev pub Prepared : Type 0
Prepared = Bytes × ExecParamsHelper

unfoldable pub int_mul : ℤ → ℤ → Result ℤ
int_mul a b =
    let product =
      sub_ℕ (pos_part a * pos_part b + neg_part a * neg_part b)
        (pos_part a * neg_part b + neg_part a * pos_part b) in
    if leb_ℤ (negsuc 2147483647) product && leb_ℤ product (pos 2147483647)
    then ok product
    else undefined

abbrev pub direction : Bool → Bytes
direction asc = if asc then bytes " ASC" else bytes " DESC"

-- `LIMIT NULLIF($N, 0) OFFSET $M`
unfoldable pub limit_clause : ℤ → ℤ → ExecParamsHelper → Result Prepared
unfolding int_mul
limit_clause page_size page helper =
    let (limit, with_limit) = add_param (string_from_int page_size) helper in
    do
      offset ← int_mul page page_size
      let (skipped, with_offset) = add_param (string_from_int offset) with_limit
      ok (bytes " LIMIT NULLIF(" ++ (limit ++ (bytes ", 0) OFFSET " ++ skipped)), with_offset)

-- The tests of the search columns.
unfoldable pub check_search_columns : List Bytes → ColumnInfoTable → Result (Unit {0})
check_search_columns [] infos = ok tt
check_search_columns (col ∷ cols) infos = elim (find_info col infos) [
  | some info ↦ check_search_columns cols infos
  | none ↦ invalid_argument (bytes "Search column '" ++ (col ++ bytes "' not found in table."))
]

module _ (quote_name : Bytes → Bytes) where
  -- The loop of the second `GenerateDeleteRowSql`; the flag is `first`.
  unfoldable pub delete_conditions :
      Bool → List DatabaseColumnInfo → KeyValueTable → ExecParamsHelper → Result Prepared
  delete_conditions first infos [] helper = ok ([], helper)
  delete_conditions first infos ((column_name, value) ∷ table) helper = do
    column ← lookup_column infos column_name
    let (param, added) = add_param value helper
    later ← delete_conditions false infos table added
    ok (
      (if first then [] else bytes " AND")
          ++ (bytes " " ++ (esc quote_name column_name ++ (bytes " = " ++ (param ++ later.0)))),
      later.1,
    )

module _ (quote_name : Bytes → Bytes) (columns_of : Bytes → List KeyValueTable) where
  unfoldable pub generate_add_row_to_table_sql :
      Bytes → KeyValueTable → List Bytes → ExecParamsHelper → Result Prepared
  generate_add_row_to_table_sql table_name table allowed helper = do
    infos ← list_columns (columns_of table_name)
    let info_table = generate_database_column_info_table infos
    check_keys_in_table table info_table
    let (params, added) = generate_insert_params allowed table helper
    ok (
      bytes "INSERT INTO "
          ++ (esc quote_name table_name
              ++ (bytes " ("
                  ++ (generate_insert_column_names quote_name info_table table
                      ++ (bytes ") VALUES (" ++ (params ++ bytes ")"))))),
      added,
    )

  -- The key's name is appended as it is, without escaping.
  unfoldable pub generate_add_row_to_table_fetch_int_primary_key_sql :
      Bytes → KeyValueTable → List Bytes → ExecParamsHelper → Result Prepared
  generate_add_row_to_table_fetch_int_primary_key_sql table_name table allowed helper = do
    infos ← list_columns (columns_of table_name)
    let info_table = generate_database_column_info_table infos
    check_keys_in_table table info_table
    let (params, added) = generate_insert_params allowed table helper
    key ← get_primary_key (columns_of table_name)
    ok (
      bytes "INSERT INTO "
          ++ (esc quote_name table_name
              ++ (bytes " ("
                  ++ (generate_insert_column_names quote_name info_table table
                      ++ (bytes ") VALUES (" ++ (params ++ (bytes ") RETURNING " ++ key)))))),
      added,
    )

  -- `GenerateLookupRowByValueSql` and `GenerateGetRowSql` build the same text.
  unfoldable pub generate_lookup_row_by_value_sql : Bytes → Bytes → Result Bytes
  generate_lookup_row_by_value_sql table_name column_name = do
    infos ← list_columns (columns_of table_name)
    column ← lookup_column infos column_name
    ok (
        bytes "SELECT "
        ++ (names quote_name infos
            ++ (bytes " FROM "
                ++ (esc quote_name table_name
                    ++ (bytes " WHERE " ++ (esc quote_name column_name ++ bytes " = $1"))))))

  unfoldable pub generate_lookup_row_by_values_sql :
      Bytes → KeyValueTable → ExecParamsHelper → Result Prepared
  generate_lookup_row_by_values_sql table_name lookup_values helper = do
    infos ← list_columns (columns_of table_name)
    let (clause, added) = where_clause quote_name lookup_values helper
    ok (
      bytes "SELECT "
          ++ (names quote_name infos
              ++ (bytes " FROM " ++ (esc quote_name table_name ++ (bytes " WHERE " ++ clause)))),
      added,
    )

  unfoldable pub generate_get_rows_by_column_sql : Bytes → Bytes → Bool → Result Bytes
  generate_get_rows_by_column_sql table_name column_name asc = do
    infos ← list_columns (columns_of table_name)
    column ← lookup_column infos column_name
    ok (
        bytes "SELECT "
        ++ (names quote_name infos
            ++ (bytes " FROM "
                ++ (esc quote_name table_name
                    ++ (bytes " ORDER BY "
                        ++ (esc quote_name column_name
                            ++ (direction asc ++ bytes " LIMIT $1 OFFSET $2")))))))

  unfoldable pub generate_update_row_sql :
      Bytes → Bytes → Bytes → KeyValueTable → List Bytes → ExecParamsHelper → Result Prepared
  generate_update_row_sql table_name column_name column_value table allowed helper = do
    infos ← list_columns (columns_of table_name)
    let info_table = generate_database_column_info_table infos
    check_keys_in_table table info_table
    column ← lookup_column infos column_name
    let (param, with_key) = add_param column_value helper
    let (params, added) = generate_insert_params allowed table with_key
    ok (
      bytes "UPDATE "
          ++ (esc quote_name table_name
              ++ (bytes " SET ("
                  ++ (generate_insert_column_names quote_name info_table table
                      ++ (bytes ") = ROW("
                          ++ (params
                              ++ (bytes ") WHERE "
                                  ++ (esc quote_name column_name ++ (bytes " = " ++ param)))))))),
      added,
    )

  unfoldable pub generate_delete_row_sql : Bytes → Bytes → Result Bytes
  generate_delete_row_sql table_name column_name = do
    infos ← list_columns (columns_of table_name)
    column ← lookup_column infos column_name
    ok (
        bytes "DELETE FROM "
        ++ (esc quote_name table_name
            ++ (bytes " WHERE " ++ (esc quote_name column_name ++ bytes " = $1"))))

  unfoldable pub generate_delete_rows_sql :
      Bytes → KeyValueTable → ExecParamsHelper → Result Prepared
  generate_delete_rows_sql table_name table helper = do
    infos ← list_columns (columns_of table_name)
    conditions ← delete_conditions quote_name true infos table helper
    ok (
      bytes "DELETE FROM " ++ (esc quote_name table_name ++ (bytes " WHERE" ++ conditions.0)),
      conditions.1,
    )
