-- ===== src/Data/Crud/Meaning.antt =====
-- What the statements of database_crud_helpers.cpp do: each is an abstract statement, written out, whose operands
-- stand for the values that were asked for.
use server_components.Common.{
  ℕ, suc, ◌≡◌, refl, ap, ◌∙◌, Bool, true, false, inl, inr, some, List, [], ◌∷◌, ◌++◌, map, Bytes,
  bytes, bytes_eq, any, all, is_empty, Bool-cases,
}
use server_components.Foundation.Text.{string_array_to_comma_separated_string}
use server_components.Data.Metadata.{Result, ok, KeyValueTable, DatabaseColumnInfo, list_columns}
use server_components.Data.Crud.Params.{
  ExecParamsHelper, no_params, add_param, set_contains, check_keys_in_table, insert_params_from,
  insert_column_names_from, generate_insert_params, generate_insert_column_names, esc,
  generate_database_column_info_table, lookup_column,
}
use server_components.Data.Crud.Statements.{generate_add_row_to_table_sql, generate_update_row_sql}
use server_components.Data.Crud.Binding.{
  keys, values, Operand, keyword, placeholder, operand_text, operand_value, slots, operands,
  insert_params-text, insert_params-params, operands-values, column_names-keys,
  generate_table-IsKeyed,
}
use server_components.Data.Crud.Columns.{
  has_column, succeeds, lookup_column-columns, check_keys-succeeds,
}

-- A column with what it is set to, or compared with.
abbrev pub Term : Type 0
Term = Bytes × Operand

pub data Statement : Type 0 where
  insert_into : Bytes → List Bytes → List Operand → Statement
  update_where : Bytes → List Bytes → List Operand → Bytes → Operand → Statement

abbrev pub comma_list : List Bytes → Bytes
comma_list items = string_array_to_comma_separated_string items

-- The text of a statement; each column is named, and each operand written, once and in order.
abbrev pub render : (Bytes → Bytes) → Statement → Bytes
render quote_name (insert_into table columns settings) =
    bytes "INSERT INTO "
    ++ (esc quote_name table
        ++ (bytes " ("
            ++ (comma_list (map (esc quote_name) columns)
                ++ (bytes ") VALUES (" ++ (comma_list (map operand_text settings) ++ bytes ")")))))
render quote_name (update_where table columns settings key operand) =
    bytes "UPDATE "
    ++ (esc quote_name table
        ++ (bytes " SET ("
            ++ (comma_list (map (esc quote_name) columns)
                ++ (bytes ") = ROW("
                    ++ (comma_list (map operand_text settings)
                        ++ (bytes ") WHERE "
                            ++ (esc quote_name key ++ (bytes " = " ++ operand_text operand))))))))

succeeds-ok {ℓ} : {A : Type ℓ} (r : Result A) → succeeds r ≡ true → (a : A) × (r ≡ ok a)
succeeds-ok (ok a) h = (a, refl)
succeeds-ok _ h = cc

module _ (table : KeyValueTable) (infos : List DatabaseColumnInfo)
    (known : all (λ key. has_column key infos) (keys table) ≡ true) where
  pub check_of_known : check_keys_in_table table (generate_database_column_info_table infos) ≡ ok tt
  check_of_known =
      (succeeds-ok (check_keys_in_table table (generate_database_column_info_table infos))
        (check_keys-succeeds table infos ∙ known)).1

  names_of_known :
      (quote_name : Bytes → Bytes)
      → insert_column_names_from quote_name (generate_database_column_info_table infos) table
        ≡ map (esc quote_name) (keys table)
  names_of_known quote_name =
      column_names-keys quote_name table (generate_database_column_info_table infos)
        (generate_table-IsKeyed infos) check_of_known

pub lookup_of_column :
    (name : Bytes) (infos : List DatabaseColumnInfo)
    → has_column name infos ≡ true
    → is_empty name ≡ false
    → (info : DatabaseColumnInfo) × (lookup_column infos name ≡ ok info)
lookup_of_column name infos found given =
    succeeds-ok (lookup_column infos name)
      (lookup_column-columns name infos ∙ ((rw (found, given))))

abbrev pub is_keyword : Operand → Bool
is_keyword (keyword word) = true
is_keyword (placeholder n) = false

-- The operands stand for the values under the parameters, and the values that are written into the text are those in the
-- list of allowed keywords and no others.
abbrev pub AreSettings : List Bytes → List Bytes → List Bytes → List Operand → Type 0
AreSettings allowed params asked settings =
    (map (operand_value params) settings ≡ map some asked)
    × (map is_keyword settings ≡ map (λ value. any (λ word. bytes_eq word value) allowed) asked)

operands-keywords :
    (allowed : List Bytes) (n : ℕ) (table : KeyValueTable)
    → map is_keyword (operands n (slots allowed table))
      ≡ map (λ value. any (λ word. bytes_eq word value) allowed) (values table)
unfolding set_contains
operands-keywords allowed n [] = refl
operands-keywords allowed n ((key, value) ∷ table) =
    elim (Bool-cases (any (λ word. bytes_eq word value) allowed)) [
      | inl word ↦ rw word (ap (◌∷◌ true) (operands-keywords allowed n table))
      | inr bound ↦ rw bound (ap (◌∷◌ false) (operands-keywords allowed (suc n) table))
    ]

-- An update is built whose text is that of an abstract statement over the keys of the row, whose operands stand for
-- the values of the row and, by a parameter, for the value to look up.
abbrev pub Updates :
    (Bytes → Bytes)
    → (Bytes → List KeyValueTable)
    → Bytes
    → Bytes
    → Bytes
    → KeyValueTable
    → List Bytes
    → Type 0
Updates quote_name columns_of table_name column_name column_value table allowed =
    (helper : ExecParamsHelper) × (settings : List Operand) × (place : ℕ) × (generate_update_row_sql
        quote_name columns_of table_name column_name column_value table allowed no_params
      ≡ ok (
        render quote_name
            (update_where table_name (keys table) settings column_name (placeholder place)),
        helper,
      ))
    × AreSettings allowed helper.params (values table) settings
    × (operand_value helper.params (placeholder place) ≡ some column_value)

-- The update of database_crud_helpers.cpp is the abstract one: when the keys of the row and the column that it is
-- looked up by are columns of the table, it succeeds; its text names exactly the keys, in order, and its
-- operands stand, under the parameters that are sent along, for exactly the values that were given for
-- them and for the value to look up, whatever those values are; a value is written into the text itself exactly if it is
-- one of the allowed keywords, and the value to look up never is.
pub generate_update_row_sql_lem :
    (quote_name : Bytes → Bytes) (columns_of : Bytes → List KeyValueTable)
    (table_name column_name column_value : Bytes) (table : KeyValueTable) (allowed : List Bytes)
    {infos : List DatabaseColumnInfo}
    → list_columns (columns_of table_name) ≡ ok infos
    → all (λ key. has_column key infos) (keys table) ≡ true
    → has_column column_name infos ≡ true
    → is_empty column_name ≡ false
    → Updates quote_name columns_of table_name column_name column_value table allowed
unfolding generate_update_row_sql generate_insert_params generate_insert_column_names add_param
generate_update_row_sql_lem quote_name columns_of table_name column_name column_value table allowed
      {infos} listed known found given =
    let with_key = (add_param column_value no_params).1 in
    let checked = check_of_known table infos known in
    let (column, looked_up) = lookup_of_column column_name infos found given in
    (
      (insert_params_from allowed table with_key).1,
      operands 2 (slots allowed table),
      1,
      rw (
        listed,
        checked,
        looked_up,
        names_of_known table infos known quote_name,
        insert_params-text allowed table with_key,
      ),
      (
        rw (insert_params-params allowed table with_key)
            (operands-values allowed table (column_value ∷ []) 2 refl),
        operands-keywords allowed 2 table,
      ),
      rw (insert_params-params allowed table with_key),
    )

-- An insertion sets each column that was given to the value that was given for it.
pub generate_add_row_to_table_sql_lem :
    (quote_name : Bytes → Bytes) (columns_of : Bytes → List KeyValueTable) (table_name : Bytes)
    (table : KeyValueTable) (allowed : List Bytes) {infos : List DatabaseColumnInfo}
    → list_columns (columns_of table_name) ≡ ok infos
    → all (λ key. has_column key infos) (keys table) ≡ true
    → (helper : ExecParamsHelper) × (settings : List Operand) × (generate_add_row_to_table_sql
          quote_name columns_of table_name table allowed no_params
        ≡ ok (render quote_name (insert_into table_name (keys table) settings), helper))
      × AreSettings allowed helper.params (values table) settings
unfolding generate_add_row_to_table_sql generate_insert_params generate_insert_column_names
generate_add_row_to_table_sql_lem quote_name columns_of table_name table allowed {infos} listed
      known =
    (
      (insert_params_from allowed table no_params).1,
      operands 1 (slots allowed table),
      rw (
        listed,
        check_of_known table infos known,
        names_of_known table infos known quote_name,
        insert_params-text allowed table no_params,
      ),
      (
        rw (insert_params-params allowed table no_params) (operands-values allowed table [] 1 refl),
        operands-keywords allowed 1 table,
      ),
    )
