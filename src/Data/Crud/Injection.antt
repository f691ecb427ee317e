-- ===== src/Data/Crud/Injection.antt =====
-- No value reaches the text of a statement: the text is made of the keys, and of the values that are allowed
-- keywords.
mod Same
use mathlib.Core.Path.{ap₂}
use server_components.Common.Int.{ℤ}
use server_components.Common.{
  ℕ, suc, ◌≡◌, refl, sym, ap, ◌∙◌, Bool, true, false, inl, inr, List, [], ◌∷◌, ◌++◌, map,
  if◌then◌else◌, Bytes, bytes, arith, Bool-cases, is_empty,
}
use server_components.Data.Metadata.{
  Result, ok, invalid_argument, out_of_range, undefined, ◌>>=◌, ◌>>◌, KeyValueTable,
  DatabaseColumnInfo, list_columns, get_primary_key,
}
use server_components.Data.Crud.Params.{
  ExecParamsHelper, add_param, ColumnInfoTable, check_keys_in_table, insert_params_from,
  insert_column_names_from, names, esc, where_clause_from, where_clause, generate_insert_params,
  generate_insert_column_names, generate_database_column_info_table, lookup_column,
}
use server_components.Data.Crud.Statements.{
  Prepared, direction, generate_add_row_to_table_sql,
  generate_add_row_to_table_fetch_int_primary_key_sql, generate_update_row_sql, delete_conditions,
  generate_delete_rows_sql, generate_lookup_row_by_values_sql, limit_clause, int_mul,
}
use server_components.Data.Crud.Queries.{
  generate_get_rows_by_values_sql, generate_get_rows_by_values_with_order_by_sql, optional_where,
}
use server_components.Data.Crud.Binding.{
  placeholder_text, keys, slots, insert_params-text, check_keys, check_keys_in_table-keys,
  where_clause_from-text, where_clause_from-count,
}
use Same.{
  text_of, same_text, same_check, same_names, same_params, same_conditions, text_frame,
  delete_conditions-ignores, limit-ignores, same_bind, same_empty, same_count, optional_where-shape,
}

module _ (quote_name : Bytes → Bytes) (columns_of : Bytes → List KeyValueTable) where
  module _ (allowed : List Bytes) (t u : KeyValueTable) (k : keys t ≡ keys u) where
    insert-ignores :
        (table_name : Bytes) (h : ExecParamsHelper)
        → slots allowed t ≡ slots allowed u
        → text_of (generate_add_row_to_table_sql quote_name columns_of table_name t allowed h)
          ≡ text_of (generate_add_row_to_table_sql quote_name columns_of table_name u allowed h)
    unfolding generate_add_row_to_table_sql generate_insert_params generate_insert_column_names
    insert-ignores table_name h s = same_text (list_columns (columns_of table_name)) _ _ λ infos.
        let info_table = generate_database_column_info_table infos in
        rw (same_check quote_name allowed t u k info_table) (
          same_text (check_keys_in_table u info_table) _ _ λ _. rw (
            same_names quote_name allowed t u k info_table,
            same_params quote_name allowed t u k s h h refl,
          ))

    fetch-ignores :
        (table_name : Bytes) (h : ExecParamsHelper)
        → slots allowed t ≡ slots allowed u
        → text_of (
            generate_add_row_to_table_fetch_int_primary_key_sql quote_name columns_of table_name t
              allowed h)
          ≡ text_of (
              generate_add_row_to_table_fetch_int_primary_key_sql quote_name columns_of table_name u
                allowed h)
    unfolding generate_add_row_to_table_fetch_int_primary_key_sql generate_insert_params
        generate_insert_column_names
    fetch-ignores table_name h s = same_text (list_columns (columns_of table_name)) _ _ λ infos.
        let info_table = generate_database_column_info_table infos in
        rw (same_check quote_name allowed t u k info_table) (
          same_text (check_keys_in_table u info_table) _ _ λ _.
            same_text (get_primary_key (columns_of table_name)) _ _ λ _. rw (
              same_names quote_name allowed t u k info_table,
              same_params quote_name allowed t u k s h h refl,
            ))

    update-ignores :
        (table_name column_name v w : Bytes) (h : ExecParamsHelper)
        → slots allowed t ≡ slots allowed u
        → text_of
            (generate_update_row_sql quote_name columns_of table_name column_name v t allowed h)
          ≡ text_of
              (generate_update_row_sql quote_name columns_of table_name column_name w u allowed h)
    unfolding generate_update_row_sql generate_insert_params generate_insert_column_names add_param
    update-ignores table_name column_name v w h s =
        same_text (list_columns (columns_of table_name)) _ _ λ infos.
          let info_table = generate_database_column_info_table infos in
          rw (same_check quote_name allowed t u k info_table) (
            same_text (check_keys_in_table u info_table) _ _ λ _.
              (same_text (lookup_column infos column_name) _ _ λ _. rw (
                same_names quote_name allowed t u k info_table,
                same_params quote_name allowed t u k s (add_param v h).1 (add_param w h).1 refl,
              )))

-- The texts, or exceptions, of the statements that insert, insert and return the key, update, delete, look up and page
-- rows are the same for two rows, and for two values that the row to update is looked up by.
abbrev pub SameTexts :
    (Bytes → Bytes)
    → (Bytes → List KeyValueTable)
    → Bytes
    → Bytes
    → Bytes
    → Bytes
    → Bool
    → ℤ
    → ℤ
    → List Bytes
    → KeyValueTable
    → KeyValueTable
    → ExecParamsHelper
    → Type 0
SameTexts quote_name columns_of table_name column_name v w asc page_size page allowed t u h =
    (text_of (generate_add_row_to_table_sql quote_name columns_of table_name t allowed h)
      ≡ text_of (generate_add_row_to_table_sql quote_name columns_of table_name u allowed h))
    × (text_of (
          generate_add_row_to_table_fetch_int_primary_key_sql quote_name columns_of table_name t
            allowed h)
        ≡ text_of (
            generate_add_row_to_table_fetch_int_primary_key_sql quote_name columns_of table_name u
              allowed h))
    × (text_of (generate_update_row_sql quote_name columns_of table_name column_name v t allowed h)
        ≡ text_of
            (generate_update_row_sql quote_name columns_of table_name column_name w u allowed h))
    × (text_of (generate_delete_rows_sql quote_name columns_of table_name t h)
        ≡ text_of (generate_delete_rows_sql quote_name columns_of table_name u h))
    × (text_of (generate_lookup_row_by_values_sql quote_name columns_of table_name t h)
        ≡ text_of (generate_lookup_row_by_values_sql quote_name columns_of table_name u h))
    × (text_of (
          generate_get_rows_by_values_with_order_by_sql quote_name columns_of table_name t
            column_name asc h)
        ≡ text_of (
            generate_get_rows_by_values_with_order_by_sql quote_name columns_of table_name u
              column_name asc h))
    × (text_of (
          generate_get_rows_by_values_sql quote_name columns_of table_name column_name t asc
            page_size page h)
        ≡ text_of (
            generate_get_rows_by_values_sql quote_name columns_of table_name column_name u asc
              page_size page h))

module _ (quote_name : Bytes → Bytes) (columns_of : Bytes → List KeyValueTable) where
  module _ (t u : KeyValueTable) (k : keys t ≡ keys u) (table_name column_name : Bytes) (asc : Bool)
      (h : ExecParamsHelper) where
    delete-ignores :
        text_of (generate_delete_rows_sql quote_name columns_of table_name t h)
        ≡ text_of (generate_delete_rows_sql quote_name columns_of table_name u h)
    unfolding generate_delete_rows_sql
    delete-ignores = same_text (list_columns (columns_of table_name)) _ _ λ infos.
        let frame = λ (s : Bytes).
          bytes "DELETE FROM " ++ (esc quote_name table_name ++ (bytes " WHERE" ++ s)) in
        text_frame quote_name frame (delete_conditions quote_name true infos t h)
        ∙ (ap (λ r. r >>= λ s. ok (frame s))
              (delete_conditions-ignores quote_name infos true t u h h k refl)
            ∙ sym (text_frame quote_name frame (delete_conditions quote_name true infos u h)))

    lookup-ignores :
        text_of (generate_lookup_row_by_values_sql quote_name columns_of table_name t h)
        ≡ text_of (generate_lookup_row_by_values_sql quote_name columns_of table_name u h)
    unfolding generate_lookup_row_by_values_sql where_clause
    lookup-ignores =
        same_text (list_columns (columns_of table_name)) _ _
          λ infos. rw (same_conditions quote_name [] t u k true h h refl)

    order_by-ignores :
        text_of (
          generate_get_rows_by_values_with_order_by_sql quote_name columns_of table_name t
            column_name asc h)
        ≡ text_of (
            generate_get_rows_by_values_with_order_by_sql quote_name columns_of table_name u
              column_name asc h)
    unfolding generate_get_rows_by_values_with_order_by_sql where_clause
    order_by-ignores = same_text (list_columns (columns_of table_name)) _ _ λ infos.
        (same_text (lookup_column infos column_name) _ _ λ _. rw (same_empty t u k) (
          same_text
            (if is_empty u
              then invalid_argument
                  (bytes "GetRowsByValuesWithOrderBy - lookupValues must not be empty.")
              else ok tt)
            _ _
            λ _. rw (same_check quote_name [] t u k (generate_database_column_info_table infos)) (
              same_text (check_keys_in_table u (generate_database_column_info_table infos)) _ _
                λ _. rw (same_conditions quote_name [] t u k true h h refl))))

    get_rows-ignores :
        (page_size page : ℤ)
        → text_of (
            generate_get_rows_by_values_sql quote_name columns_of table_name column_name t asc
              page_size page h)
          ≡ text_of (
              generate_get_rows_by_values_sql quote_name columns_of table_name column_name u asc
                page_size page h)
    unfolding generate_get_rows_by_values_sql
    get_rows-ignores page_size page = same_text (list_columns (columns_of table_name)) _ _ λ infos.
        (same_text (lookup_column infos column_name) _ _ λ _.
          (same_bind _ _ _ _ (optional_where-shape quote_name t u k infos h) λ p q a b.
            let frame = λ (clause s : Bytes).
              bytes "SELECT "
              ++ (names quote_name infos
                  ++ (bytes ", COUNT(*) OVER() AS _total_count FROM "
                      ++ (esc quote_name table_name
                          ++ (clause
                              ++ (bytes " ORDER BY "
                                  ++ (esc quote_name column_name ++ (direction asc ++ s))))))) in
            text_frame quote_name (frame p.0) (limit_clause page_size page p.1)
            ∙ (ap₂ (λ c r. r >>= λ s. ok (frame c s)) a (limit-ignores page_size page p.1 q.1 b)
                ∙ sym (text_frame quote_name (frame q.0) (limit_clause page_size page q.1)))))

  -- Two rows that have the same columns, and the same allowed keywords at the same places, give the same text, or the
  -- same exception, of the two insertions, with and without the key returned, of the update, of the deletion by values,
  -- and of the three look-ups by values, plain, ordered and paged, whatever their other values are and whatever value the
  -- row to update is looked up by.
  pub text-ignores_values :
      (table_name column_name v w : Bytes) (asc : Bool) (page_size page : ℤ) (allowed : List Bytes)
      (t u : KeyValueTable) (h : ExecParamsHelper)
      → keys t ≡ keys u
      → slots allowed t ≡ slots allowed u
      → SameTexts quote_name columns_of table_name column_name v w asc page_size page allowed t u h
  text-ignores_values table_name column_name v w asc page_size page allowed t u h k s = (
    insert-ignores quote_name columns_of allowed t u k table_name h s,
    fetch-ignores quote_name columns_of allowed t u k table_name h s,
    update-ignores quote_name columns_of allowed t u k table_name column_name v w h s,
    delete-ignores t u k table_name column_name asc h,
    lookup-ignores t u k table_name column_name asc h,
    order_by-ignores t u k table_name column_name asc h,
    get_rows-ignores t u k table_name column_name asc h page_size page,
  )
