-- ===== src/Foundation/Json/Reading.antt =====
-- How the text of a value is read, by the grammar of JSON: a description that is independent of the code. White space,
-- fractions and exponents, which are never written, are left out.
use server_components.Common.{
  ℕ, zero, suc, ◌+◌, ◌-◌, ◌*◌, Bool, true, false, not, ◌||◌, ◌&&◌, Option, none, some, [], ◌∷◌,
  if◌then◌else◌, ltb, leb, ◌==◌, Bytes, bytes, starts_with, drop, length, all, bytes_eq,
}
use server_components.Foundation.Numbers.{stoll, is_digit}
use server_components.Foundation.Json.{
  Value, Items, Members, null, boolean, integer, text, array, object, empty_array, item,
  empty_object, member,
}

-- What the next byte of a string literal is part of: the text, an escape, or the digits of `\u`, with how many are to
-- come behind this one and the value of those before.
pub data Mode : Type 0 where
  plain escaped : Mode
  digits : ℕ → ℕ → Mode

-- The digits of `\u` in either case.
unfoldable pub is_hex_digit : ℕ → Bool
is_hex_digit c = is_digit c || leb b'A' c && leb c b'F' || leb b'a' c && leb c b'f'

unfoldable pub hex_value : ℕ → ℕ
hex_value c = if ltb c b'A' then c - b'0' else if ltb c b'a' then c - 55 else c - 87

-- The escapes of one letter that the grammar has.
unfoldable pub unescape : ℕ → Option ℕ
unescape c =
    if c == b'b'
    then some 8
    else if c == b'f'
    then some 12
    else if c == b'n'
    then some 10
    else if c == b'r'
    then some 13
    else if c == b't'
    then some 9
    else if c == b'"' || c == 92 || c == b'/'
    then some c
    else none

abbrev pub push : ℕ → Option (Bytes × Bytes) → Option (Bytes × Bytes)
push c none = none
push c (some (s, rest)) = some (c ∷ s, rest)

abbrev pub push_escaped : Option ℕ → Option (Bytes × Bytes) → Option (Bytes × Bytes)
push_escaped none rest = none
push_escaped (some c) rest = push c rest

-- A string literal behind its opening quote: its text, and what is behind the closing one. The grammar has no control
-- character in a literal but by an escape. `\u` is read for the characters that are one byte; the others, which are never
-- written so, are left out.
unfoldable pub read_chars : Mode → Bytes → Option (Bytes × Bytes)
unfolding hex_value is_hex_digit unescape
read_chars mode [] = none
read_chars plain (c ∷ s) =
    let in_text = read_chars plain s in
    let in_escape = read_chars escaped s in
    if c == b'"'
    then some ([], s)
    else if c == 92
    then in_escape
    else if ltb c 32
    then none
    else push c in_text
read_chars escaped (c ∷ s) =
    let in_text = read_chars plain s in
    let in_digits = read_chars (digits 3 0) s in
    if c == b'u' then in_digits else push_escaped (unescape c) in_text
read_chars (digits zero value) (c ∷ s) =
    let in_text = read_chars plain s in
    let character = value * 16 + hex_value c in
    if is_hex_digit c && ltb character 128 then push character in_text else none
read_chars (digits (suc n) value) (c ∷ s) =
    let in_digits = read_chars (digits n (value * 16 + hex_value c)) s in
    if is_hex_digit c then in_digits else none

unfoldable pub number_span : Bytes → Bytes × Bytes
number_span [] = ([], [])
number_span (c ∷ s) =
    let (more, rest) = number_span s in
    if is_digit c || c == b'-' then (c ∷ more, rest) else ([], c ∷ s)

-- A digit that a number of more than one digit may begin with.
unfoldable pub leads_number : Bytes → Bool
unfolding is_digit
leads_number [] = false
leads_number (c ∷ s) = is_digit c && not (c == b'0')

unfoldable pub is_natural_text : Bytes → Bool
unfolding leads_number is_digit
is_natural_text s = leads_number s && all is_digit s || bytes_eq s (b'0' ∷ [])

-- An integer of the grammar: no leading zero, and a sign only if it is negative.
unfoldable pub is_integer_text : Bytes → Bool
unfolding is_natural_text
is_integer_text [] = false
is_integer_text (c ∷ s) = if c == b'-' then is_natural_text s else is_natural_text (c ∷ s)

unfoldable pub read_number : Bytes → Option (Value × Bytes)
unfolding number_span is_integer_text
read_number s =
    if is_integer_text (number_span s).0
    then elim (stoll (number_span s).0) [
      | some n ↦ some (integer n, (number_span s).1)
      | none ↦ none
    ]
    else none

unfoldable pub read_word : Bytes → Value → Bytes → Option (Value × Bytes)
read_word word value s = if starts_with word s then some (value, drop (length word) s) else none

abbrev pub as_text : Option (Bytes × Bytes) → Option (Value × Bytes)
as_text none = none
as_text (some (s, rest)) = some (text s, rest)

abbrev pub as_array : Option (Items × Bytes) → Option (Value × Bytes)
as_array none = none
as_array (some (items, rest)) = some (array items, rest)

abbrev pub as_object : Option (Members × Bytes) → Option (Value × Bytes)
as_object none = none
as_object (some (members, rest)) = some (object members, rest)

-- A key and the colon behind it.
unfoldable pub read_key : Bytes → Option (Bytes × Bytes)
unfolding read_chars
read_key [] = none
read_key (c ∷ s) =
    if c == b'"'
    then elim (read_chars plain s) [
      | none ↦ none
      | some (key, rest) ↦ if starts_with (b':' ∷ []) rest then some (key, drop 1 rest) else none
    ]
    else none

-- What is left behind a separator: none before the first entry, and a comma before every other.
unfoldable pub behind_separator : Bool → Bytes → Option Bytes
behind_separator true s = some s
behind_separator false s = if starts_with (b',' ∷ []) s then some (drop 1 s) else none

unfoldable mutual
  unfolding read_number read_word read_key behind_separator

  pub read_value : ℕ → Bytes → Option (Value × Bytes)
  read_value zero s = none
  read_value (suc fuel) [] = none
  read_value (suc fuel) (c ∷ s) =
      let items = read_items fuel true s in
      let members = read_members fuel true s in
      if c == b'"'
      then as_text (read_chars plain s)
      else if c == b'['
      then as_array items
      else if c == b'{'
      then as_object members
      else if c == b'n'
      then read_word (bytes "ull") null s
      else if c == b't'
      then read_word (bytes "rue") (boolean true) s
      else if c == b'f'
      then read_word (bytes "alse") (boolean false) s
      else read_number (c ∷ s)

  pub read_items : ℕ → Bool → Bytes → Option (Items × Bytes)
  read_items zero first s = none
  read_items (suc fuel) first s =
      if starts_with (b']' ∷ []) s
      then some (empty_array, drop 1 s)
      else elim (behind_separator first s) [
        | none ↦ none
        | some next ↦ elim (read_value fuel next) [
          | none ↦ none
          | some (value, behind) ↦ elim (read_items fuel false behind) [
            | none ↦ none
            | some (items, rest) ↦ some (item value items, rest)
          ]
        ]
      ]

  pub read_members : ℕ → Bool → Bytes → Option (Members × Bytes)
  read_members zero first s = none
  read_members (suc fuel) first s =
      if starts_with (b'}' ∷ []) s
      then some (empty_object, drop 1 s)
      else elim (behind_separator first s) [
        | none ↦ none
        | some next ↦ elim (read_key next) [
          | none ↦ none
          | some (key, behind_key) ↦ elim (read_value fuel behind_key) [
            | none ↦ none
            | some (value, behind) ↦ elim (read_members fuel false behind) [
              | none ↦ none
              | some (members, rest) ↦ some (member key value members, rest)
            ]
          ]
        ]
      ]
