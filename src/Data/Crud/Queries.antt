-- ===== src/Data/Crud/Queries.antt =====
-- The namespace `PrivateSql` of components/data/sql_util/database_access/database_crud_helpers.cpp, continued:
-- the queries that sort, search and page.
use server_components.Common.Int.{ℤ}
use server_components.Common.{
  Bool, true, false, List, [], ◌∷◌, ◌++◌, if◌then◌else◌, Bytes, bytes, is_empty,
}
use server_components.Data.Metadata.{
  Result, ok, invalid_argument, ◌>>=◌, ◌>>◌, KeyValueTable, DatabaseColumnInfo, list_columns,
}
use server_components.Data.Crud.Params.{
  ExecParamsHelper, add_param, generate_database_column_info_table, check_keys_in_table,
  lookup_column, esc, names, where_clause,
}
use server_components.Data.Crud.Statements.{Prepared, direction, limit_clause, check_search_columns}

module _ (quote_name : Bytes → Bytes) where
  -- The loop over the search columns; the flag says that `i` is 0.
  unfoldable pub search_conditions : Bool → Bytes → List Bytes → Bytes
  search_conditions first param [] = []
  search_conditions first param (col ∷ cols) =
      (if first then [] else bytes " OR ")
      ++ (esc quote_name col
          ++ (bytes "::text ILIKE " ++ (param ++ search_conditions false param cols)))

  -- The search, left out when there are no columns to search.
  unfoldable pub search_clause : List Bytes → Bytes → ExecParamsHelper → Prepared
  unfolding search_conditions
  search_clause search_columns search_text helper =
      let (param, added) = add_param (b'%' ∷ (search_text ++ bytes "%")) helper in
      if is_empty search_columns
      then ([], helper)
      else (bytes " WHERE (" ++ (search_conditions true param search_columns ++ bytes ")"), added)

  -- The condition of `GenerateGetRowsByValuesSql`, left out when there is nothing to look up.
  unfoldable pub optional_where :
      List DatabaseColumnInfo → KeyValueTable → ExecParamsHelper → Result Prepared
  optional_where infos lookup_values helper =
      let (clause, added) = where_clause quote_name lookup_values helper in
      if is_empty lookup_values
      then ok ([], helper)
      else check_keys_in_table lookup_values (generate_database_column_info_table infos)
        >> ok (bytes " WHERE " ++ clause, added)

module _ (quote_name : Bytes → Bytes) (columns_of : Bytes → List KeyValueTable) where
  unfoldable pub generate_get_rows_by_values_with_order_by_sql :
      Bytes → KeyValueTable → Bytes → Bool → ExecParamsHelper → Result Prepared
  generate_get_rows_by_values_with_order_by_sql table_name lookup_values order_by_column asc
        helper =
      do
        infos ← list_columns (columns_of table_name)
        column ← lookup_column infos order_by_column
        (if is_empty lookup_values
            then invalid_argument
                (bytes "GetRowsByValuesWithOrderBy - lookupValues must not be empty.")
            else ok tt)
        check_keys_in_table lookup_values (generate_database_column_info_table infos)
        let (clause, added) = where_clause quote_name lookup_values helper
        ok (
          bytes "SELECT "
              ++ (names quote_name infos
                  ++ (bytes " FROM "
                      ++ (esc quote_name table_name
                          ++ (bytes " WHERE "
                              ++ (clause
                                  ++ (bytes " ORDER BY "
                                      ++ (esc quote_name order_by_column ++ direction asc))))))),
          added,
        )

  unfoldable pub generate_get_rows_by_values_sql :
      Bytes → Bytes → KeyValueTable → Bool → ℤ → ℤ → ExecParamsHelper → Result Prepared
  unfolding optional_where
  generate_get_rows_by_values_sql table_name sort_column_name lookup_values asc page_size page
        helper =
      do
        infos ← list_columns (columns_of table_name)
        column ← lookup_column infos sort_column_name
        condition ← optional_where quote_name infos lookup_values helper
        paging ← limit_clause page_size page condition.1
        ok (
          bytes "SELECT "
              ++ (names quote_name infos
                  ++ (bytes ", COUNT(*) OVER() AS _total_count FROM "
                      ++ (esc quote_name table_name
                          ++ (condition.0
                              ++ (bytes " ORDER BY "
                                  ++ (esc quote_name sort_column_name
                                      ++ (direction asc ++ paging.0))))))),
          paging.1,
        )

  unfoldable pub generate_search_rows_by_i_like_sql :
      Bytes → Bytes → List Bytes → Bytes → Bool → ℤ → ℤ → ExecParamsHelper → Result Prepared
  unfolding search_clause
  generate_search_rows_by_i_like_sql table_name sort_column_name search_columns search_text asc
        page_size page helper =
      do
        infos ← list_columns (columns_of table_name)
        column ← lookup_column infos sort_column_name
        check_search_columns search_columns (generate_database_column_info_table infos)
        let (clause, with_pattern) = search_clause quote_name search_columns search_text helper
        paging ← limit_clause page_size page with_pattern
        ok (
          bytes "SELECT "
              ++ (names quote_name infos
                  ++ (bytes ", COUNT(*) OVER() AS _total_count FROM "
                      ++ (esc quote_name table_name
                          ++ (clause
                              ++ (bytes " ORDER BY "
                                  ++ (esc quote_name sort_column_name
                                      ++ (direction asc ++ paging.0))))))),
          paging.1,
        )
