-- ===== src/Data/Crud/Accepting.antt =====
-- When the statements of database_crud_helpers.cpp that write are built, and when they throw.
use server_components.Common.{
  ◌≡◌, refl, ◌∙◌, Bool, true, false, ◌&&◌, not, List, [], ◌∷◌, Bytes, arith, all, is_empty,
}
use server_components.Data.Metadata.{
  Result, ok, ◌>>=◌, KeyValueTable, DatabaseColumnInfo, list_columns,
}
use server_components.Data.Crud.Params.{
  ExecParamsHelper, add_param, check_keys_in_table, generate_database_column_info_table,
  lookup_column,
}
use server_components.Data.Crud.Statements.{
  generate_add_row_to_table_sql, generate_update_row_sql, delete_conditions,
  generate_delete_rows_sql, generate_delete_row_sql,
}
use server_components.Data.Crud.Binding.{keys}
use server_components.Data.Crud.Columns.{
  has_column, succeeds, lookup_column-columns, check_keys-succeeds,
}

succeeds->>= {ℓ κ} :
    {A : Type ℓ} {B : Type κ} (m : Result A) (f : A → Result B) (b : Bool)
    → ((a : A) → succeeds (f a) ≡ b)
    → succeeds (m >>= f) ≡ (succeeds m && b)
succeeds->>= (ok a) f b h = h a
succeeds->>= _ f b h = refl

-- A name by which rows can be looked up.
abbrev pub is_searchable : List DatabaseColumnInfo → Bytes → Bool
is_searchable infos name = has_column name infos && not (is_empty name)

delete_conditions-succeeds :
    (quote_name : Bytes → Bytes) (first : Bool) (infos : List DatabaseColumnInfo)
    (table : KeyValueTable) (helper : ExecParamsHelper)
    → succeeds (delete_conditions quote_name first infos table helper)
      ≡ all (is_searchable infos) (keys table)
unfolding delete_conditions add_param
delete_conditions-succeeds quote_name first infos [] helper = refl
delete_conditions-succeeds quote_name first infos ((key, value) ∷ table) helper =
    succeeds->>= (lookup_column infos key) _ (all (is_searchable infos) (keys table)) (λ _.
      succeeds->>= (delete_conditions quote_name false infos table (add_param value helper).1) _
        true (λ _. refl)
      ∙ ground (
        arith,
        delete_conditions-succeeds quote_name false infos table (add_param value helper).1,
      ))
    ∙ ground (arith, lookup_column-columns key infos)

pub writes-succeed :
    (quote_name : Bytes → Bytes) (columns_of : Bytes → List KeyValueTable)
    (table_name column_name column_value : Bytes) (table : KeyValueTable) (allowed : List Bytes)
    (helper : ExecParamsHelper) {infos : List DatabaseColumnInfo}
    → list_columns (columns_of table_name) ≡ ok infos
    → (succeeds
          (generate_add_row_to_table_sql quote_name columns_of table_name table allowed helper)
        ≡ all (λ key. has_column key infos) (keys table))
      × (succeeds (
            generate_update_row_sql quote_name columns_of table_name column_name column_value table
              allowed helper)
          ≡ (all (λ key. has_column key infos) (keys table) && is_searchable infos column_name))
      × (succeeds (generate_delete_row_sql quote_name columns_of table_name column_name)
          ≡ is_searchable infos column_name)
      × (succeeds (generate_delete_rows_sql quote_name columns_of table_name table helper)
          ≡ all (is_searchable infos) (keys table))
unfolding generate_add_row_to_table_sql generate_update_row_sql generate_delete_row_sql
    generate_delete_rows_sql
writes-succeed quote_name columns_of table_name column_name column_value table allowed helper
      {infos} listed =
    let checked = check_keys-succeeds table infos in
    let found = lookup_column-columns column_name infos in
    let check = check_keys_in_table table (generate_database_column_info_table infos) in
    (
      rw listed (succeeds->>= check _ true (λ _. refl) ∙ ground arith),
      rw listed (
          succeeds->>= check _ (succeeds (lookup_column infos column_name))
            (λ _. succeeds->>= (lookup_column infos column_name) _ true (λ _. refl) ∙ ground arith)
          ∙ ground arith),
      rw listed (succeeds->>= (lookup_column infos column_name) _ true (λ _. refl) ∙ ground arith),
      rw listed (
          succeeds->>= (delete_conditions quote_name true infos table helper) _ true (λ _. refl)
          ∙ ground (arith, delete_conditions-succeeds quote_name true infos table helper)),
    )
