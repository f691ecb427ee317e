-- ===== src/Data/Metadata.antt =====
-- components/data/sql_util/database_access/database_metadata.cpp and the escaping of names in
-- database_helper.cpp: what the statements know of the columns of a table.
--
-- The rows that the query of the catalogue answers are an argument. A row is a `std::map` from column
-- names to texts, as the list of its entries in the order of the keys.
mod Tests
use server_components.Common.Int.{ℤ, pos, negsuc, pos_part, neg_part, leb_ℤ}
use server_components.Common.{
  ℕ, ◌-◌, ◌^◌, Bool, true, false, ◌&&◌, ◌||◌, Option, none, some, List, [], ◌∷◌, if◌then◌else◌, leb,
  ◌==◌, all, Bytes, bytes, bytes_eq, is_empty, map,
}
use server_components.Foundation.Text.{string_to_lower, string_to_bool}
use server_components.Foundation.Numbers.{stoll}

-- The outcome of a step: a value, one of the exceptions that are thrown, or undefined behaviour.
pub data Result {ℓ} (A : Type ℓ) : Type ℓ where
  ok : A → Result A
  invalid_argument : Bytes → Result A
  out_of_range : Result A
  undefined : Result A

infixl 5 ◌>>=◌ ◌>>◌
abbrev pub ◌>>=◌ {ℓ κ} : {A : Type ℓ} {B : Type κ} → Result A → (A → Result B) → Result B
ok a >>= f = f a
invalid_argument what >>= f = invalid_argument what
out_of_range >>= f = out_of_range
undefined >>= f = undefined

abbrev pub ◌>>◌ {ℓ} : {B : Type ℓ} → Result (Unit {0}) → Result B → Result B
m >> k = m >>= λ _. k

abbrev pub KeyValueTable : Type 0
KeyValueTable = List (Bytes × Bytes)

-- `table.find(key)`
unfoldable pub find_value : Bytes → KeyValueTable → Option Bytes
find_value key [] = none
find_value key ((k, value) ∷ table) = if bytes_eq k key then some value else find_value key table

-- `table.at(key)`
unfoldable pub at : KeyValueTable → Bytes → Result Bytes
at table key = elim (find_value key table) [ some value ↦ ok value | none ↦ out_of_range ]

-- `std::stoi`: the text of a 32-bit integer.
unfoldable pub stoi : Bytes → Result ℤ
stoi s = elim (stoll s) [
  | none ↦ invalid_argument (bytes "stoi")
  | some n ↦ if leb_ℤ (negsuc 2147483647) n && leb_ℤ n (pos 2147483647) then ok n else out_of_range
]

pub record DatabaseColumnInfo : Type 0 where
  pub column_name : Bytes
  pub ordinal_position : ℤ
  pub data_type : Bytes
  pub numeric_precision : ℤ
  pub udt_name : Bytes
  pub primary_key : Bool
  pub unique : Bool

-- The body of the loop of `ListColumns`.
unfoldable pub column_info : KeyValueTable → Result DatabaseColumnInfo
unfolding at stoi
column_info row = do
  name ← at row (bytes "column_name")
  position_text ← at row (bytes "ordinal_position")
  position ← stoi position_text
  type ← at row (bytes "data_type")
  precision_text ← at row (bytes "numeric_precision")
  precision ← stoi precision_text
  udt ← at row (bytes "udt_name")
  primary ← at row (bytes "primary_key")
  is_unique ← at row (bytes "is_unique")
  ok (record {
    column_name = name;
    ordinal_position = position;
    data_type = type;
    numeric_precision = precision;
    udt_name = udt;
    primary_key = string_to_bool primary;
    unique = string_to_bool is_unique;
  })

unfoldable pub list_columns : List KeyValueTable → Result (List DatabaseColumnInfo)
unfolding column_info
list_columns [] = ok []
list_columns (row ∷ rows) = do info ← column_info row; infos ← list_columns rows; ok (info ∷ infos)

unfoldable pub string_array_from_database_column_info_array : List DatabaseColumnInfo → List Bytes
string_array_from_database_column_info_array infos = map (λ info. info.column_name) infos

-- The loop of `GetPrimaryKey`.
unfoldable pub primary_key_of : List DatabaseColumnInfo → Bytes
primary_key_of [] = []
primary_key_of (info ∷ infos) = if info.primary_key then info.column_name else primary_key_of infos

unfoldable pub get_primary_key : List KeyValueTable → Result Bytes
unfolding primary_key_of
get_primary_key rows = do infos ← list_columns rows; ok (primary_key_of infos)

unfoldable pub is_alpha : ℕ → Bool
is_alpha c = leb b'A' c && leb c b'Z' || leb b'a' c && leb c b'z'

unfoldable pub is_name_byte : ℕ → Bool
unfolding is_alpha
is_name_byte c = is_alpha c || leb b'0' c && leb c b'9' || c == b'_'

unfoldable pub is_simple_name : Bytes → Bool
unfolding is_name_byte
is_simple_name [] = false
is_simple_name (first ∷ name) = (is_alpha first || first == b'_') && all is_name_byte (first ∷ name)

-- `EscSqlTableName` and `EscSqlColumnName`; `quote_name` is that of libpqxx.
unfoldable pub esc_sql_name : (Bytes → Bytes) → Bytes → Bytes
unfolding is_simple_name
esc_sql_name quote_name name =
    let lowered = string_to_lower name in
    if is_simple_name lowered then lowered else quote_name lowered
