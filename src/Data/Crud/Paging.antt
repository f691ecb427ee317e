-- ===== src/Data/Crud/Paging.antt =====
-- Pages of rows: the parameters of `LIMIT` and `OFFSET`, and where their product overflows.
use server_components.Common.Int.{pos}
use server_components.Common.{
  ℕ, suc, ◌*◌, ◌≡◌, refl, ap, Bool, true, false, inl, inr, List, [], ◌∷◌, ◌++◌, if◌then◌else◌,
  Bytes, bytes, arith, leb, all, is_empty, append_assoc, Bool-cases,
}
use server_components.Foundation.Numbers.{string_from_int}
use server_components.Data.Metadata.{ok, undefined, KeyValueTable, DatabaseColumnInfo, list_columns}
use server_components.Data.Crud.Params.{
  ExecParamsHelper, no_params, add_param, where_clause, esc, names,
}
use server_components.Data.Crud.Statements.{int_mul, limit_clause, direction}
use server_components.Data.Crud.Queries.{optional_where, generate_get_rows_by_values_sql}
use server_components.Data.Crud.Binding.{keys, values, placeholder_text, where_clause_from-params}
use server_components.Data.Crud.Columns.{has_column}
use server_components.Data.Crud.Meaning.{check_of_known, lookup_of_column}

abbrev pub int_max : ℕ
int_max = 2147483647

int_mul-pos :
    (a b : ℕ)
    → int_mul (pos a) (pos b) ≡ (if leb (a * b) int_max then ok (pos (a * b)) else undefined)
unfolding int_mul
int_mul-pos a b = grind arith

limit_clause-pos :
    (page_size page : ℕ) (helper : ExecParamsHelper)
    → (text : Bytes) × (count : ℕ) × (limit_clause (pos page_size) (pos page) helper ≡ (
        if leb (page * page_size) int_max
        then ok (
          text,
          record {
            count = count;
            params =
                helper.params
                ++ string_from_int (pos page_size) ∷ string_from_int (pos (page * page_size)) ∷ [];
          },
        )
        else undefined))
unfolding limit_clause add_param
limit_clause-pos page_size page helper = (
  bytes " LIMIT NULLIF("
      ++ (placeholder_text helper.count
          ++ (bytes ", 0) OFFSET " ++ placeholder_text (suc helper.count))),
  suc (suc helper.count),
  rw (int_mul-pos page page_size) (elim (Bool-cases (leb (page * page_size) int_max)) [
    | inl small ↦ rw (
      small,
      append_assoc helper.params (string_from_int (pos page_size) ∷ [])
          (string_from_int (pos (page * page_size)) ∷ []),
    )
    | inr large ↦ rw large
  ]),
)

where_clause-params :
    (quote_name : Bytes → Bytes) (table : KeyValueTable)
    → (where_clause quote_name table no_params).1.params ≡ values table
unfolding where_clause
where_clause-params quote_name table = where_clause_from-params quote_name true table no_params

optional_where-params :
    (quote_name : Bytes → Bytes) (table : KeyValueTable) (infos : List DatabaseColumnInfo)
    → all (λ key. has_column key infos) (keys table) ≡ true
    → (text : Bytes) × (count : ℕ) × (optional_where quote_name infos table no_params
        ≡ ok (text, record { count = count; params = values table }))
unfolding optional_where
optional_where-params quote_name [] infos known = ([], 1, refl)
optional_where-params quote_name ((key, value) ∷ table) infos known =
    let entries = (key, value) ∷ table in
    let clause = where_clause quote_name entries no_params in
    (
      bytes " WHERE " ++ clause.0,
      clause.1.count,
      rw (check_of_known entries infos known) (
          ap
            (λ ps. ok (bytes " WHERE " ++ clause.0, record { count = clause.1.count; params = ps }))
            (where_clause-params quote_name entries)),
    )

-- The values, the size of the page and the rows to skip are sent, unless their number overflows.
abbrev pub IsPage :
    (Bytes → Bytes)
    → (Bytes → List KeyValueTable)
    → Bytes
    → Bytes
    → KeyValueTable
    → Bool
    → ℕ
    → ℕ
    → Type 0
IsPage quote_name columns_of table_name sort_column_name table asc page_size page =
    (sql : Bytes) × (count : ℕ) × (generate_get_rows_by_values_sql quote_name columns_of table_name
        sort_column_name table asc (pos page_size) (pos page) no_params
      ≡ (if leb (page * page_size) int_max
          then ok (
            sql,
            record {
              count = count;
              params =
                  values table
                  ++ string_from_int (pos page_size)
                    ∷ string_from_int (pos (page * page_size))
                    ∷ [];
            },
          )
          else undefined))

-- A page of rows, numbered and sized by natural numbers: when the column to sort by and the columns to look up are
-- known, the values are sent in order, then the size of the page, then the number of rows to skip; that
-- number is the product of page and size as long as it fits into an `int`, and beyond that the
-- multiplication is undefined behaviour.
pub generate_get_rows_by_values_sql_lem :
    (quote_name : Bytes → Bytes) (columns_of : Bytes → List KeyValueTable)
    (table_name sort_column_name : Bytes) (table : KeyValueTable) (asc : Bool) (page_size page : ℕ)
    {infos : List DatabaseColumnInfo}
    → list_columns (columns_of table_name) ≡ ok infos
    → all (λ key. has_column key infos) (keys table) ≡ true
    → has_column sort_column_name infos ≡ true
    → is_empty sort_column_name ≡ false
    → IsPage quote_name columns_of table_name sort_column_name table asc page_size page
unfolding generate_get_rows_by_values_sql
generate_get_rows_by_values_sql_lem quote_name columns_of table_name sort_column_name table asc
      page_size page {infos} listed known found given =
    let (column, looked_up) = lookup_of_column sort_column_name infos found given in
    let (condition, after, filtered) = optional_where-params quote_name table infos known in
    let (paging, count, paged) =
      limit_clause-pos page_size page (record { count = after; params = values table }) in
    (
      bytes "SELECT "
          ++ (names quote_name infos
              ++ (bytes ", COUNT(*) OVER() AS _total_count FROM "
                  ++ (esc quote_name table_name
                      ++ (condition
                          ++ (bytes " ORDER BY "
                              ++ (esc quote_name sort_column_name
                                  ++ (direction asc ++ paging))))))),
      count,
      rw (listed, looked_up, filtered, paged)
          (elim (Bool-cases (leb (page * page_size) int_max)) [
            | inl small ↦ rw small
            | inr large ↦ rw large
          ]),
    )
