-- ===== src/Foundation/Json.antt =====
-- components/foundation/util/json_value.h: JSON values, and the text that they are written as. The conversions from and
-- to the values of Crow, and the constructors that only wrap a value, are not modelled. A double is its 64 bits, and the
-- digits that a stream prints for a finite one are the parameter `stream_digits`.
pub mod Reading
pub mod Literals
pub mod Integers
pub mod Entries
pub mod RoundTrip
mod Tests
use server_components.Common.Int.{ℤ}
use server_components.Common.{
  ℕ, ◌+◌, ◌/◌, ◌%◌, Bool, true, false, Option, none, some, List, [], ◌∷◌, ◌++◌, if◌then◌else◌, ltb,
  ◌==◌, Bytes, bytes, bytes_eq,
}
use server_components.Foundation.Numbers.{string_from_int}

-- The members of an object stand in the order of their keys.
mutual
  pub data Value : Type 0 where
    null : Value
    boolean : Bool → Value
    integer : ℤ → Value
    number : ℕ → Value
    text : Bytes → Value
    array : Items → Value
    object : Members → Value

  pub data Items : Type 0 where
    empty_array : Items
    item : Value → Items → Items

  pub data Members : Type 0 where
    empty_object : Members
    member : Bytes → Value → Members → Members

-- `hex[n]`
unfoldable pub hex : ℕ → ℕ
hex n = if ltb n 10 then b'0' + n else 55 + n

unfoldable pub escape_byte : ℕ → Bytes
unfolding hex
escape_byte c =
    if c == b'"'
    then 92 ∷ b'"' ∷ []
    else if c == 92
    then 92 ∷ 92 ∷ []
    else if c == 8
    then 92 ∷ b'b' ∷ []
    else if c == 12
    then 92 ∷ b'f' ∷ []
    else if c == 10
    then 92 ∷ b'n' ∷ []
    else if c == 13
    then 92 ∷ b'r' ∷ []
    else if c == 9
    then 92 ∷ b't' ∷ []
    else if ltb c 32
    then 92 ∷ b'u' ∷ b'0' ∷ b'0' ∷ hex (c / 16 % 16) ∷ hex (c % 16) ∷ []
    else c ∷ []

unfoldable pub escape_all : Bytes → Bytes
unfolding escape_byte
escape_all [] = []
escape_all (c ∷ s) = escape_byte c ++ escape_all s

-- `append_escaped_json_string`
unfoldable pub escaped_json_string : Bytes → Bytes
unfolding escape_all
escaped_json_string s = b'"' ∷ escape_all s ++ (b'"' ∷ [])

-- `std::isfinite`: the exponent is not all ones.
unfoldable pub is_finite : ℕ → Bool
is_finite d = if d / 4503599627370496 % 2048 == 2047 then false else true

module _ (stream_digits : ℕ → Bytes) where
  -- `append_json_number`
  unfoldable pub json_number : ℕ → Bytes
  unfolding is_finite
  json_number d = if is_finite d then stream_digits d else bytes "null"

  -- `AppendJson`. The flag says that the item is the first.
  unfoldable mutual
    unfolding json_number escaped_json_string

    pub json_text : Value → Bytes
    json_text null = bytes "null"
    json_text (boolean true) = bytes "true"
    json_text (boolean false) = bytes "false"
    json_text (integer n) = string_from_int n
    json_text (number d) = json_number d
    json_text (text s) = escaped_json_string s
    json_text (array items) = b'[' ∷ items_text true items ++ (b']' ∷ [])
    json_text (object members) = b'{' ∷ members_text true members ++ (b'}' ∷ [])

    pub items_text : Bool → Items → Bytes
    items_text first empty_array = []
    items_text first (item value items) =
        (if first then [] else b',' ∷ []) ++ (json_text value ++ items_text false items)

    pub members_text : Bool → Members → Bytes
    members_text first empty_object = []
    members_text first (member key value members) =
        (if first then [] else b',' ∷ [])
        ++ (escaped_json_string key ++ (b':' ∷ json_text value ++ members_text false members))

  -- `ToString`
  abbrev pub to_string : Value → Bytes
  to_string value = json_text value

  -- `ToSimpleString`
  unfoldable pub to_simple_string : Value → Bytes
  to_simple_string (text s) = s
  to_simple_string value = json_text value

-- `HasChild`: the child, when there is one.
unfoldable pub find_member : Bytes → Members → Option Value
find_member key empty_object = none
find_member key (member k value members) =
    if bytes_eq k key then some value else find_member key members

unfoldable pub has_child : Bytes → Value → Option Value
unfolding find_member
has_child key (object members) = find_member key members
has_child key value = none

-- `MakeObject` and `MakeArray`: a value of another kind is overwritten.
unfoldable pub make_object : Value → Members
make_object (object members) = members
make_object value = empty_object

unfoldable pub make_array : Value → Items
make_array (array items) = items
make_array value = empty_array
