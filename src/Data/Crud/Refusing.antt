-- ===== src/Data/Crud/Refusing.antt =====
-- Writes with unknown columns never reach the database.
use server_components.Common.{◌≡◌, refl, ◌∙◌, false, List, [], ◌∷◌, Bytes, arith, all}
use server_components.Data.Metadata.{
  Result, ok, invalid_argument, out_of_range, undefined, KeyValueTable, DatabaseColumnInfo,
  list_columns,
}
use server_components.Data.Crud.Params.{no_params}
use server_components.Data.Crud.Statements.{Prepared}
use server_components.Data.Crud.Operations.{
  run_prepared, returning, add_row_to_table, update_row, delete_rows, no_result,
}
use server_components.Data.Crud.Binding.{keys}
use server_components.Data.Crud.Columns.{has_column, succeeds}
use server_components.Data.Crud.Accepting.{is_searchable, writes-succeed}

-- An exception, and the database as it was.
abbrev pub IsRefused {ℓ κ} : {A : Type ℓ} {Db : Type κ} → Db → Result A × Db → Type κ
IsRefused db outcome = (succeeds outcome.0 ≡ false) × (outcome.1 ≡ db)

searchable_known :
    (infos : List DatabaseColumnInfo) (names : List Bytes)
    → all (λ key. has_column key infos) names ≡ false
    → all (is_searchable infos) names ≡ false
searchable_known infos [] h = h
searchable_known infos (name ∷ names) h = ground (arith, searchable_known infos names)

module _ {Db : Type 0} (quote_name : Bytes → Bytes) (columns_of : Bytes → List KeyValueTable)
    (run : Bytes → List Bytes → Db → Result (List KeyValueTable) × Db) where
  run_prepared-IsRefused :
      {A : Type 0} (f : List KeyValueTable → Result A) (prepared : Result Prepared) (db : Db)
      → succeeds prepared ≡ false
      → IsRefused db (returning f (run_prepared quote_name columns_of run prepared db))
  unfolding run_prepared
  run_prepared-IsRefused f (ok p) db h = cc
  run_prepared-IsRefused f (invalid_argument what) db h = (refl, refl)
  run_prepared-IsRefused f out_of_range db h = (refl, refl)
  run_prepared-IsRefused f undefined db h = (refl, refl)

  -- When one of the keys of a row is no column of the table, inserting the row, updating a row by it and
  -- deleting the rows that match it throw, and leave the database as it was: no statement is run,
  -- whatever the database would do with one.
  pub unknown_key-IsRefused :
      (table_name column_name column_value : Bytes) (table : KeyValueTable) (allowed : List Bytes)
      (db : Db) {infos : List DatabaseColumnInfo}
      → list_columns (columns_of table_name) ≡ ok infos
      → all (λ key. has_column key infos) (keys table) ≡ false
      → IsRefused db (add_row_to_table quote_name columns_of run table_name table allowed db)
        × IsRefused db (
            update_row quote_name columns_of run table_name column_name column_value table allowed
              db)
        × IsRefused db (delete_rows quote_name columns_of run table_name table db)
  unfolding add_row_to_table update_row delete_rows
  unknown_key-IsRefused table_name column_name column_value table allowed db {infos} listed
        unknown =
      let (inserts, updates, _, deletes) =
        writes-succeed quote_name columns_of table_name column_name column_value table allowed
          no_params listed in
      (
        run_prepared-IsRefused no_result _ db (inserts ∙ unknown),
        run_prepared-IsRefused no_result _ db (updates ∙ rw unknown),
        run_prepared-IsRefused no_result _ db
            (deletes ∙ searchable_known infos (keys table) unknown),
      )
