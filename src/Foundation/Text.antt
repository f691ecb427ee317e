-- ===== src/Foundation/Text.antt =====
-- components/foundation/util/types.cpp: the text helpers. A string is the list of its bytes; the
-- `<cctype>` tests are those of the "C" locale.
pub mod Trimming
pub mod Splitting
pub mod LineEnds
pub mod UrlEncoding
pub mod Templates
mod Tests
use server_components.Common.{
  ℕ, zero, suc, ◌+◌, ◌-◌, ◌/◌, ◌%◌, ◌≡◌, Bool, true, false, ◌&&◌, ◌||◌, not, Option, none, some,
  List, [], ◌∷◌, ◌++◌, map, if◌then◌else◌, leb, ◌==◌, length, take, drop, get_elem?, Bytes, bytes,
  is_empty, bytes_eq, starts_with, trim_with,
}

-- `std::tolower`
unfoldable pub to_lower_byte : ℕ → ℕ
to_lower_byte c = if leb b'A' c && leb c b'Z' then c + 32 else c

unfoldable pub string_to_lower : Bytes → Bytes
unfolding to_lower_byte
string_to_lower str = map to_lower_byte str

-- `std::isspace`: tab, newline, vertical tab, form feed, carriage return and space.
unfoldable pub is_space : ℕ → Bool
is_space c = c == b' ' || leb 9 c && leb c 13

unfoldable pub string_trim : Bytes → Bytes
unfolding is_space trim_with
string_trim str = trim_with is_space str

unfoldable pub string_to_bool : Bytes → Bool
unfolding string_to_lower bytes_eq
string_to_bool str =
    let lower_str = string_to_lower str in
    bytes_eq lower_str (bytes "t")
    || bytes_eq lower_str (bytes "true")
    || bytes_eq lower_str (bytes "1")

-- The loop of `StringArrayToCommaSeparatedString`; the flag is `first`.
unfoldable pub join_from : Bool → List Bytes → Bytes
join_from first [] = []
join_from first (str ∷ strs) = (if first then [] else bytes ", ") ++ (str ++ join_from false strs)

unfoldable pub string_array_to_comma_separated_string : List Bytes → Bytes
unfolding join_from
string_array_to_comma_separated_string string_array = join_from true string_array

-- `s.find(needle)`: the first place where the needle stands.
unfoldable pub find_bytes : Bytes → Bytes → Option ℕ
find_bytes needle [] = if is_empty needle then some 0 else none
find_bytes needle (c ∷ s) =
    let rest = find_bytes needle s in
    if starts_with needle (c ∷ s) then some 0 else elim rest [ some i ↦ some (suc i) | none ↦ none ]

unfoldable pub split_string : Bytes → Bytes → Bytes × Bytes
split_string str delimiter =
    if is_empty delimiter then (str, []) else (elim (find_bytes delimiter str) [
      | none ↦ (str, [])
      | some at ↦ (take at str, drop (at + length delimiter) str)
    ])

-- The replacing loop of `FormatString` for one placeholder: a replacement is skipped, not searched
-- again. The counter is the number of bytes of the placeholder that are still to be dropped.
unfoldable pub replace_from : ℕ → Bytes → Bytes → Bytes → Bytes
replace_from (suc n) placeholder value [] = []
replace_from zero placeholder value [] = []
replace_from (suc n) placeholder value (c ∷ s) = replace_from n placeholder value s
replace_from zero placeholder value (c ∷ s) =
    let hit = starts_with placeholder (c ∷ s) in
    (if hit then value else c ∷ [])
    ++ replace_from (if hit then length placeholder - 1 else 0) placeholder value s

-- The map of placeholders is walked in the order of its keys.
unfoldable pub format_string : Bytes → List (Bytes × Bytes) → Bytes
unfolding replace_from starts_with
format_string result [] = result
format_string result ((key, value) ∷ rest) =
    format_string (replace_from 0 (bytes "{" ++ (key ++ bytes "}")) value result) rest

unfoldable pub is_unreserved : ℕ → Bool
is_unreserved c =
    leb b'A' c && leb c b'Z'
    || leb b'a' c && leb c b'z'
    || leb b'0' c && leb c b'9'
    || c == b'-'
    || c == b'.'
    || c == b'_'
    || c == b'~'

-- `kHex[d]`
unfoldable pub hex_digit : ℕ → ℕ
hex_digit d = elim (get_elem? (bytes "0123456789ABCDEF") d) [ some c ↦ c | none ↦ 0 ]

unfoldable pub url_encode_byte : ℕ → Bytes
url_encode_byte c =
    if is_unreserved c then c ∷ [] else b'%' ∷ hex_digit (c / 16) ∷ hex_digit (c % 16) ∷ []

unfoldable pub url_encode_query_value : Bytes → Bytes
url_encode_query_value [] = []
url_encode_query_value (c ∷ value) = url_encode_byte c ++ url_encode_query_value value

-- The loop of `NormalizeCrLf`; the first argument says whether the byte before is a CR.
unfoldable pub normalize_from : Bool → Bytes → Bytes
normalize_from after_cr [] = []
normalize_from after_cr (c ∷ rest) =
    (if c == 10 && not after_cr then 13 ∷ c ∷ [] else c ∷ []) ++ normalize_from (c == 13) rest

unfoldable pub normalize_cr_lf : Bytes → Bytes
unfolding normalize_from
normalize_cr_lf input = normalize_from false input
