-- ===== src/Data/Crud/Columns.antt =====
-- Which names the tests of database_crud_helpers.cpp accept: those of the columns of the table.
use server_components.Common.{
  ◌≡◌, refl, Bool, true, false, ◌&&◌, ◌||◌, not, inl, inr, Option, none, some, List, [], ◌∷◌, Bytes,
  bytes_eq, bytes_eq_iff, arith, any, all, is_empty, Option-cases,
}
use server_components.Data.Metadata.{Result, ok, KeyValueTable, DatabaseColumnInfo}
use server_components.Data.Crud.Params.{
  ColumnInfoTable, put_info, column_info_table_from, generate_database_column_info_table, find_info,
  check_keys_in_table, find_column, lookup_column,
}
use server_components.Data.Crud.Binding.{keys}

abbrev pub has_column : Bytes → List DatabaseColumnInfo → Bool
has_column name infos = any (λ info. bytes_eq info.column_name name) infos

abbrev is_found {ℓ} : {A : Type ℓ} → Option A → Bool
is_found none = false
is_found (some a) = true

bytes_eq_sym : (a b : Bytes) → bytes_eq a b ≡ bytes_eq b a
bytes_eq_sym a b = ground (arith, bytes_eq_iff a b, bytes_eq_iff b a)

find_info-put_info :
    (key : Bytes) (info : DatabaseColumnInfo) (table : ColumnInfoTable)
    → is_found (find_info key (put_info info table))
      ≡ (bytes_eq info.column_name key || is_found (find_info key table))
unfolding find_info put_info
find_info-put_info key info [] = ground arith
find_info-put_info key info ((name, old) ∷ table) =
    ground (arith, bytes_eq_iff name info.column_name, find_info-put_info key info table)

find_info-from :
    (key : Bytes) (infos : List DatabaseColumnInfo) (table : ColumnInfoTable)
    → is_found (find_info key (column_info_table_from table infos))
      ≡ (is_found (find_info key table) || has_column key infos)
unfolding column_info_table_from
find_info-from key [] table = ground arith
find_info-from key (info ∷ infos) table =
    ground
      (arith, find_info-from key infos (put_info info table), find_info-put_info key info table)

pub find_info-has_column :
    (key : Bytes) (infos : List DatabaseColumnInfo)
    → is_found (find_info key (generate_database_column_info_table infos)) ≡ has_column key infos
unfolding generate_database_column_info_table find_info
find_info-has_column key infos = find_info-from key infos []

find_column-has_column :
    (name : Bytes) (infos : List DatabaseColumnInfo)
    → (is_found (find_column name infos) ≡ has_column name infos)
      × ((info : DatabaseColumnInfo) → find_column name infos ≡ some info → info.column_name ≡ name)
unfolding find_column
find_column-has_column name [] = (refl, λ info h. cc)
find_column-has_column name (info ∷ infos) = (
  ground (arith, bytes_eq_sym name info.column_name, (find_column-has_column name infos).0),
  λ found h.
      ground
        (arith, bytes_eq_iff name info.column_name, (find_column-has_column name infos).1 found),
)

abbrev pub succeeds {ℓ} : {A : Type ℓ} → Result A → Bool
succeeds (ok a) = true
succeeds _ = false

pub lookup_column-columns :
    (name : Bytes) (infos : List DatabaseColumnInfo)
    → succeeds (lookup_column infos name) ≡ (has_column name infos && not (is_empty name))
unfolding lookup_column
lookup_column-columns name infos = elim (Option-cases (find_column name infos)) [
  | inl missing ↦ ground (arith, (find_column-has_column name infos).0)
  | inr (info, found) ↦
      rw (found, lookup_column, (find_column-has_column name infos).1 info found)
        (ground (arith, (find_column-has_column name infos).0))
]

pub check_keys-succeeds :
    (table : KeyValueTable) (infos : List DatabaseColumnInfo)
    → succeeds (check_keys_in_table table (generate_database_column_info_table infos))
      ≡ all (λ key. has_column key infos) (keys table)
unfolding check_keys_in_table
check_keys-succeeds [] infos = refl
check_keys-succeeds ((key, value) ∷ table) infos =
    ground (arith, check_keys-succeeds table infos, find_info-has_column key infos)
