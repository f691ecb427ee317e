-- ===== src/Data/Crud/Binding.antt =====
-- What the parameter lists and the clauses of database_crud_helpers.cpp mean: which parameter each placeholder
-- refers to, and that the text depends on the keys alone.
use mathlib.Core.Path.{ap₂}
use server_components.Common.Int.{pos}
use server_components.Common.{
  ℕ, zero, suc, ◌+◌, ◌-◌, ◌≡◌, refl, sym, ap, subst, ◌∙◌, Bool, false, inl, inr, Option, none, some,
  List, [], ◌∷◌, ◌++◌, map, if◌then◌else◌, Bytes, bytes, bytes_eq_iff, arith, Bool-cases,
  Option-cases, append-nil, append_assoc, get_elem?, length, length-append,
}
use server_components.Foundation.Numbers.{string_from_int}
use server_components.Data.Metadata.{
  Result, ok, invalid_argument, KeyValueTable, DatabaseColumnInfo,
}
use server_components.Data.Crud.Params.{
  ExecParamsHelper, add_param, set_contains, insert_param, insert_params_from, put_info,
  ColumnInfoTable, column_info_table_from, generate_database_column_info_table, find_info,
  check_keys_in_table, insert_column_names_from, where_clause_from, esc,
}

abbrev pub keys : KeyValueTable → List Bytes
keys table = map (λ entry. entry.0) table

abbrev pub values : KeyValueTable → List Bytes
values table = map (λ entry. entry.1) table

abbrev pub placeholder_text : ℕ → Bytes
placeholder_text n = b'$' ∷ string_from_int (pos n)

-- What stands for a value in a statement: an allowed keyword, or a parameter by its number.
pub data Operand : Type 0 where
  keyword : Bytes → Operand
  placeholder : ℕ → Operand

abbrev pub operand_text : Operand → Bytes
operand_text (keyword word) = word
operand_text (placeholder n) = placeholder_text n

-- The value that the database puts for an operand when it is sent these parameters.
abbrev pub operand_value : List Bytes → Operand → Option Bytes
operand_value params (keyword word) = some word
operand_value params (placeholder n) = get_elem? params (n - 1)

-- The keywords among the values, `none` where a value is not one.
abbrev pub slots : List Bytes → KeyValueTable → List (Option Bytes)
slots allowed [] = []
slots allowed ((key, value) ∷ table) =
    (if set_contains allowed value then some value else none) ∷ slots allowed table

abbrev pub operands : ℕ → List (Option Bytes) → List Operand
operands n [] = []
operands n (some word ∷ rest) = keyword word ∷ operands n rest
operands n (none ∷ rest) = placeholder n ∷ operands (suc n) rest

-- A helper whose counter is one more than the number of its parameters.
abbrev pub IsCounted : ExecParamsHelper → Type 0
IsCounted helper = helper.count ≡ suc (length helper.params)

pub insert_params-text :
    (allowed : List Bytes) (table : KeyValueTable) (helper : ExecParamsHelper)
    → (insert_params_from allowed table helper).0
      ≡ map operand_text (operands helper.count (slots allowed table))
unfolding insert_params_from insert_param add_param
insert_params-text allowed [] helper = refl
insert_params-text allowed ((key, value) ∷ table) helper =
    elim (Bool-cases (set_contains allowed value)) [
      | inl word ↦ rw word (ap (◌∷◌ value) (insert_params-text allowed table helper))
      | inr bound ↦ rw bound (
          ap (◌∷◌ (placeholder_text helper.count))
            (insert_params-text allowed table (add_param value helper).1))
    ]

-- The parameters that a helper already holds keep their places.
get_elem?-append {ℓ} :
    {A : Type ℓ} (xs ys : List A) (i : ℕ) {x : A}
    → get_elem? xs i ≡ some x
    → get_elem? (xs ++ ys) i ≡ some x
get_elem?-append [] ys i h = cc
get_elem?-append (y ∷ xs) ys zero h = h
get_elem?-append (y ∷ xs) ys (suc i) h = get_elem?-append xs ys i h

get_elem?-last {ℓ} :
    {A : Type ℓ} (xs : List A) (x : A) (ys : List A) → get_elem? (xs ++ x ∷ ys) (length xs) ≡ some x
get_elem?-last [] x ys = refl
get_elem?-last (y ∷ xs) x ys = get_elem?-last xs x ys

-- The values that are sent as parameters, in order.
abbrev pub bound : List Bytes → KeyValueTable → List Bytes
bound allowed [] = []
bound allowed ((key, value) ∷ table) =
    if set_contains allowed value then bound allowed table else value ∷ bound allowed table

pub insert_params-params :
    (allowed : List Bytes) (table : KeyValueTable) (helper : ExecParamsHelper)
    → (insert_params_from allowed table helper).1.params ≡ helper.params ++ bound allowed table
unfolding insert_params_from insert_param add_param
insert_params-params allowed [] helper = sym (append-nil helper.params)
insert_params-params allowed ((key, value) ∷ table) helper =
    elim (Bool-cases (set_contains allowed value)) [
      | inl word ↦ rw word (insert_params-params allowed table helper)
      | inr fresh ↦ rw fresh (
          insert_params-params allowed table (add_param value helper).1
          ∙ append_assoc helper.params (value ∷ []) (bound allowed table))
    ]

pred_of : {n m : ℕ} → n ≡ suc m → n - 1 ≡ m
pred_of e = omega arith

-- Every operand of a list of values stands for its value, whatever was sent before.
pub operands-values :
    (allowed : List Bytes) (table : KeyValueTable) (before : List Bytes) (n : ℕ)
    → n ≡ suc (length before)
    → map (operand_value (before ++ bound allowed table)) (operands n (slots allowed table))
      ≡ map some (values table)
operands-values allowed [] before n e = refl
operands-values allowed ((key, value) ∷ table) before n e =
    elim (Bool-cases (set_contains allowed value)) [
      | inl word ↦ rw word (ap (◌∷◌ (some value)) (operands-values allowed table before n e))
      | inr fresh ↦ rw fresh (
          ap₂ ◌∷◌ (rw (pred_of e) (get_elem?-last before value (bound allowed table))) (
            subst
              (λ (params : List Bytes).
                map (operand_value params) (operands (suc n) (slots allowed table))
                ≡ map some (values table))
              (append_assoc before (value ∷ []) (bound allowed table))
              (operands-values allowed table (before ++ value ∷ []) (suc n)
                (omega (arith, e, length-append {0} before (value ∷ []))))))
    ]

-- The tests and the lists of names as functions of the keys.
abbrev pub check_keys : List Bytes → ColumnInfoTable → Result (Unit {0})
check_keys [] infos = ok tt
check_keys (key ∷ rest) infos = elim (find_info key infos) [
  | some info ↦ check_keys rest infos
  | none ↦
      invalid_argument (bytes "CheckKeysInTable key(" ++ (key ++ bytes ") not found in table."))
]

pub check_keys_in_table-keys :
    (table : KeyValueTable) (infos : ColumnInfoTable)
    → check_keys_in_table table infos ≡ check_keys (keys table) infos
unfolding check_keys_in_table
check_keys_in_table-keys [] infos = refl
check_keys_in_table-keys ((key, value) ∷ table) infos =
    ground (arith, check_keys_in_table-keys table infos)

-- Each entry of the table of columns stands under the name of its column.
abbrev pub IsKeyed : ColumnInfoTable → Type 0
IsKeyed [] = Unit
IsKeyed ((name, info) ∷ infos) = (info.column_name ≡ name) × IsKeyed infos

put_info-IsKeyed :
    (info : DatabaseColumnInfo) (infos : ColumnInfoTable)
    → IsKeyed infos
    → IsKeyed (put_info info infos)
unfolding put_info
put_info-IsKeyed info [] keyed = (refl, tt)
put_info-IsKeyed info ((name, old) ∷ infos) keyed =
    ground (arith, bytes_eq_iff name info.column_name, put_info-IsKeyed info infos keyed.1)

column_info_table_from-IsKeyed :
    (infos : List DatabaseColumnInfo) (table : ColumnInfoTable)
    → IsKeyed table
    → IsKeyed (column_info_table_from table infos)
unfolding column_info_table_from
column_info_table_from-IsKeyed [] table keyed = keyed
column_info_table_from-IsKeyed (info ∷ infos) table keyed =
    column_info_table_from-IsKeyed infos (put_info info table) (put_info-IsKeyed info table keyed)

pub generate_table-IsKeyed :
    (infos : List DatabaseColumnInfo) → IsKeyed (generate_database_column_info_table infos)
unfolding generate_database_column_info_table
generate_table-IsKeyed infos = column_info_table_from-IsKeyed infos [] tt

find_info-key :
    (key : Bytes) (infos : ColumnInfoTable) {info : DatabaseColumnInfo}
    → IsKeyed infos
    → find_info key infos ≡ some info
    → info.column_name ≡ key
unfolding find_info
find_info-key key [] keyed found = cc
find_info-key key ((name, old) ∷ infos) {info = info} keyed found =
    ground (arith, bytes_eq_iff name key, find_info-key key infos {info = info} keyed.1)

pub column_names-keys :
    (quote_name : Bytes → Bytes) (table : KeyValueTable) (infos : ColumnInfoTable)
    → IsKeyed infos
    → check_keys_in_table table infos ≡ ok tt
    → insert_column_names_from quote_name infos table ≡ map (esc quote_name) (keys table)
unfolding check_keys_in_table insert_column_names_from
column_names-keys quote_name [] infos keyed checked = refl
column_names-keys quote_name ((key, value) ∷ table) infos keyed checked =
    elim (Option-cases (find_info key infos)) [
      | inl missing ↦ absurd (ground arith)
      | inr (info, found) ↦
          rw (found, insert_column_names_from)
            (ap₂ ◌∷◌ (ap (esc quote_name) (find_info-key key infos keyed found))
              (column_names-keys quote_name table infos keyed (ground arith)))
    ]

-- The condition of a look-up, as a function of the keys.
abbrev pub conditions : (Bytes → Bytes) → Bool → ℕ → List Bytes → Bytes
conditions quote_name first n [] = []
conditions quote_name first n (key ∷ rest) =
    (if first then [] else bytes " AND ")
    ++ (esc quote_name key
        ++ (bytes " = " ++ (placeholder_text n ++ conditions quote_name false (suc n) rest)))

module _ (quote_name : Bytes → Bytes) where
  pub where_clause_from-text :
      (first : Bool) (table : KeyValueTable) (helper : ExecParamsHelper)
      → (where_clause_from quote_name first table helper).0
        ≡ conditions quote_name first helper.count (keys table)
  unfolding where_clause_from add_param
  where_clause_from-text first [] helper = refl
  where_clause_from-text first ((key, value) ∷ table) helper =
      ap
        (λ (later : Bytes).
          (if first then [] else bytes " AND ")
          ++ (esc quote_name key ++ (bytes " = " ++ (placeholder_text helper.count ++ later))))
        (where_clause_from-text false table (add_param value helper).1)

  pub where_clause_from-params :
      (first : Bool) (table : KeyValueTable) (helper : ExecParamsHelper)
      → (where_clause_from quote_name first table helper).1.params ≡ helper.params ++ values table
  unfolding where_clause_from add_param
  where_clause_from-params first [] helper = sym (append-nil helper.params)
  where_clause_from-params first ((key, value) ∷ table) helper =
      where_clause_from-params false table (add_param value helper).1
      ∙ append_assoc helper.params (value ∷ []) (values table)

  pub where_clause_from-count :
      (first : Bool) (table : KeyValueTable) (helper : ExecParamsHelper)
      → (where_clause_from quote_name first table helper).1.count
        ≡ helper.count + length (keys table)
  unfolding where_clause_from add_param
  where_clause_from-count first [] helper = omega arith
  where_clause_from-count first ((key, value) ∷ table) helper =
      omega (arith, where_clause_from-count false table (add_param value helper).1)
