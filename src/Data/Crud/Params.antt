-- ===== src/Data/Crud/Params.antt =====
-- components/data/sql_util/database_access/transaction.h and the first part of database_crud_helpers.cpp:
-- the parameters of a statement, and the lists and clauses that refer to them.
--
-- `quote_name` of libpqxx is a parameter. A `std::set` of texts is the list of its items.
use server_components.Common.Int.{pos}
use server_components.Common.{
  ℕ, suc, Bool, true, false, Option, none, some, List, [], ◌∷◌, ◌++◌, if◌then◌else◌, Bytes, bytes,
  bytes_eq, is_empty, any, map,
}
use server_components.Foundation.Text.{string_array_to_comma_separated_string}
use server_components.Foundation.Numbers.{string_from_int}
use server_components.Data.Metadata.{
  Result, ok, invalid_argument, KeyValueTable, DatabaseColumnInfo, esc_sql_name,
}

-- `count_` is an `int`: it would overflow at 2^31 parameters, of which PostgreSQL takes 65535.
pub record ExecParamsHelper : Type 0 where
  pub count : ℕ
  pub params : List Bytes

abbrev pub no_params : ExecParamsHelper
no_params = record { count = 1; params = [] }

unfoldable pub add_param : Bytes → ExecParamsHelper → Bytes × ExecParamsHelper
add_param param helper = (
  b'$' ∷ string_from_int (pos helper.count),
  record { count = suc helper.count; params = helper.params ++ param ∷ [] },
)

unfoldable pub set_contains : List Bytes → Bytes → Bool
set_contains string_set value = any (λ s. bytes_eq s value) string_set

-- One round of the loop of `GenerateInsertParams`.
unfoldable pub insert_param : List Bytes → Bytes → ExecParamsHelper → Bytes × ExecParamsHelper
unfolding set_contains
insert_param allowed value helper =
    if set_contains allowed value then (value, helper) else add_param value helper

unfoldable pub insert_params_from :
    List Bytes → KeyValueTable → ExecParamsHelper → List Bytes × ExecParamsHelper
insert_params_from allowed [] helper = ([], helper)
insert_params_from allowed ((key, value) ∷ table) helper =
    let (param, added) = insert_param allowed value helper in
    let (params, all_added) = insert_params_from allowed table added in (param ∷ params, all_added)

unfoldable pub generate_insert_params :
    List Bytes → KeyValueTable → ExecParamsHelper → Bytes × ExecParamsHelper
unfolding insert_params_from
generate_insert_params allowed table helper =
    let (params, added) = insert_params_from allowed table helper in
    (string_array_to_comma_separated_string params, added)

-- `databaseColumnInfoTable[columnName] = databaseColumnInfo`, at its place in the order of the keys or not:
-- the table is only searched.
abbrev pub ColumnInfoTable : Type 0
ColumnInfoTable = List (Bytes × DatabaseColumnInfo)

unfoldable pub put_info : DatabaseColumnInfo → ColumnInfoTable → ColumnInfoTable
put_info info [] = (info.column_name, info) ∷ []
put_info info ((name, old) ∷ table) =
    if bytes_eq name info.column_name
    then (name, info) ∷ table
    else (name, old) ∷ put_info info table

unfoldable pub column_info_table_from : ColumnInfoTable → List DatabaseColumnInfo → ColumnInfoTable
column_info_table_from table [] = table
column_info_table_from table (info ∷ infos) = column_info_table_from (put_info info table) infos

unfoldable pub generate_database_column_info_table : List DatabaseColumnInfo → ColumnInfoTable
unfolding column_info_table_from
generate_database_column_info_table infos = column_info_table_from [] infos

unfoldable pub find_info : Bytes → ColumnInfoTable → Option DatabaseColumnInfo
find_info key [] = none
find_info key ((name, info) ∷ table) = if bytes_eq name key then some info else find_info key table

unfoldable pub check_keys_in_table : KeyValueTable → ColumnInfoTable → Result (Unit {0})
check_keys_in_table [] infos = ok tt
check_keys_in_table ((key, value) ∷ table) infos = elim (find_info key infos) [
  | some info ↦ check_keys_in_table table infos
  | none ↦
      invalid_argument (bytes "CheckKeysInTable key(" ++ (key ++ bytes ") not found in table."))
]

-- The search of `LookupDatabaseColumnInfoByColumnName`, and its test for an empty name.
unfoldable pub find_column : Bytes → List DatabaseColumnInfo → Option DatabaseColumnInfo
find_column column_name [] = none
find_column column_name (info ∷ infos) =
    if bytes_eq column_name info.column_name then some info else find_column column_name infos

abbrev pub column_not_found : Bytes → Bytes
column_not_found name =
    bytes "LookupDatabaseColumnInfoByColumnName - column name not found: " ++ name

unfoldable pub lookup_column : List DatabaseColumnInfo → Bytes → Result DatabaseColumnInfo
unfolding find_column
lookup_column infos column_name = elim (find_column column_name infos) [
  | none ↦ invalid_argument (column_not_found column_name)
  | some info ↦
      if is_empty info.column_name then invalid_argument (column_not_found column_name) else ok info
]

module _ (quote_name : Bytes → Bytes) where
  abbrev pub esc : Bytes → Bytes
  esc name = esc_sql_name quote_name name

  -- The end iterator is never read: `CheckKeysInTable` has been called.
  unfoldable pub insert_column_names_from : ColumnInfoTable → KeyValueTable → List Bytes
  insert_column_names_from infos [] = []
  insert_column_names_from infos ((key, value) ∷ table) = elim (find_info key infos) [
    | some info ↦ esc info.column_name ∷ insert_column_names_from infos table
    | none ↦ insert_column_names_from infos table
  ]

  unfoldable pub generate_insert_column_names : ColumnInfoTable → KeyValueTable → Bytes
  generate_insert_column_names infos table =
      string_array_to_comma_separated_string (insert_column_names_from infos table)

  unfoldable pub get_column_names : List DatabaseColumnInfo → List Bytes
  get_column_names infos = map (λ info. esc info.column_name) infos

  abbrev pub names : List DatabaseColumnInfo → Bytes
  names infos = string_array_to_comma_separated_string (get_column_names infos)

  -- The loop of `WhereClauseFromKeyValueTable`; the flag is `first`.
  unfoldable pub where_clause_from :
      Bool → KeyValueTable → ExecParamsHelper → Bytes × ExecParamsHelper
  where_clause_from first [] helper = ([], helper)
  where_clause_from first ((key, value) ∷ table) helper =
      let (param, added) = add_param value helper in
      let (later, all_added) = where_clause_from false table added in
      (
        (if first then [] else bytes " AND ") ++ (esc key ++ (bytes " = " ++ (param ++ later))),
        all_added,
      )

  unfoldable pub where_clause : KeyValueTable → ExecParamsHelper → Bytes × ExecParamsHelper
  unfolding where_clause_from
  where_clause table helper = where_clause_from true table helper
