-- ===== src/Foundation/Json/Entries.antt =====
-- The values that are read back, and one entry of an array or an object.
use server_components.Common.{
  ℕ, suc, ◌+◌, ◌≡◌, ◌≢◌, refl, Bool, true, false, some, [], ◌∷◌, ◌++◌, append_assoc, arith, All,
  Bytes, starts_with,
}
use server_components.Foundation.Numbers.{string_from_int, is_digit}
use server_components.Foundation.Numbers.RoundTrip.{IsInt64}
use server_components.Foundation.Json.{
  Value, Items, Members, null, boolean, integer, number, text, array, object, empty_array, item,
  empty_object, member, escaped_json_string, json_text, items_text, members_text,
}
use server_components.Foundation.Json.Reading.{
  read_key, behind_separator, read_value, read_items, read_members,
}
use server_components.Foundation.Json.Literals.{read_chars-escape_all, literal-split}
use server_components.Foundation.Json.Integers.{
  EndsNumber, IsNumberChar, string_from_int-chars, string_from_int-full,
}

-- Values without a double, whose integers fit.
unfoldable mutual
  pub IsExact : Value → Type 0
  IsExact null = Unit
  IsExact (boolean b) = Unit
  IsExact (integer n) = IsInt64 n
  IsExact (number d) = ⊥
  IsExact (text s) = Unit
  IsExact (array items) = AreExact items
  IsExact (object members) = HasExact members

  pub AreExact : Items → Type 0
  AreExact empty_array = Unit
  AreExact (item value items) = IsExact value × AreExact items

  pub HasExact : Members → Type 0
  HasExact empty_object = Unit
  HasExact (member key value members) = IsExact value × HasExact members

-- One unit of fuel for a value, an item and a member, and for the end of an array and an object.
unfoldable mutual
  pub fuel_for : Value → ℕ
  fuel_for (array items) = suc (items_fuel items)
  fuel_for (object members) = suc (members_fuel members)
  fuel_for value = 1

  pub items_fuel : Items → ℕ
  items_fuel empty_array = 1
  items_fuel (item value items) = suc (fuel_for value + items_fuel items)

  pub members_fuel : Members → ℕ
  members_fuel empty_object = 1
  members_fuel (member key value members) = suc (fuel_for value + members_fuel members)

-- A text that begins with neither of the two closing brackets.
abbrev pub OpensNoEnd : Bytes → Type 0
OpensNoEnd s = (starts_with (b']' ∷ []) s ≡ false) × (starts_with (b'}' ∷ []) s ≡ false)

chars-OpensNoEnd : (s rest : Bytes) → All IsNumberChar s → s ≢ [] → OpensNoEnd (s ++ rest)
unfolding starts_with is_digit
chars-OpensNoEnd [] rest h full = absurd (full refl)
chars-OpensNoEnd (c ∷ s) rest (char, h) full = (ground arith, ground arith)

-- An item that is read, with those behind it.
pub read_items-item :
    (fuel : ℕ) (first : Bool) (s next behind rest : Bytes) (value : Value) (items : Items)
    → starts_with (b']' ∷ []) s ≡ false
    → behind_separator first s ≡ some next
    → read_value fuel next ≡ some (value, behind)
    → read_items fuel false behind ≡ some (items, rest)
    → read_items (suc fuel) first s ≡ some (item value items, rest)
unfolding read_items
read_items-item fuel first s next behind rest value items no_end separated read_one read_others =
    rw (no_end, separated, read_one, read_others) refl

pub read_members-member :
    (fuel : ℕ) (first : Bool) (s next behind_key behind rest key : Bytes) (value : Value)
    (members : Members)
    → starts_with (b'}' ∷ []) s ≡ false
    → behind_separator first s ≡ some next
    → read_key next ≡ some (key, behind_key)
    → read_value fuel behind_key ≡ some (value, behind)
    → read_members fuel false behind ≡ some (members, rest)
    → read_members (suc fuel) first s ≡ some (member key value members, rest)
unfolding read_members
read_members-member fuel first s next behind_key behind rest key value members no_end separated
      read_a_key read_one read_others =
    rw (no_end, separated, read_a_key, read_one, read_others) refl

pub member_split :
    (key value_text others rest : Bytes)
    → escaped_json_string key ++ (b':' ∷ value_text ++ others) ++ rest
      ≡ escaped_json_string key ++ b':' ∷ (value_text ++ (others ++ rest))
member_split key value_text others rest =
    rw
      (
        append_assoc (escaped_json_string key) (b':' ∷ value_text ++ others) rest,
        append_assoc value_text others rest,
      )
      refl

pub read_key-literal :
    (key rest : Bytes) → read_key (escaped_json_string key ++ b':' ∷ rest) ≡ some (key, rest)
unfolding read_key starts_with
read_key-literal key rest =
    rw (literal-split key (b':' ∷ rest), read_chars-escape_all key (b':' ∷ rest)) refl

module _ (stream_digits : ℕ → Bytes) where
  pub json_text-OpensNoEnd :
      (value : Value) (rest : Bytes)
      → IsExact value
      → OpensNoEnd (json_text stream_digits value ++ rest)
  unfolding json_text starts_with IsExact escaped_json_string
  json_text-OpensNoEnd null rest exact = (refl, refl)
  json_text-OpensNoEnd (boolean true) rest exact = (refl, refl)
  json_text-OpensNoEnd (boolean false) rest exact = (refl, refl)
  json_text-OpensNoEnd (integer n) rest exact =
      chars-OpensNoEnd (string_from_int n) rest (string_from_int-chars n) (string_from_int-full n)
  json_text-OpensNoEnd (number d) rest exact = absurd exact
  json_text-OpensNoEnd (text s) rest exact = (refl, refl)
  json_text-OpensNoEnd (array items) rest exact = (refl, refl)
  json_text-OpensNoEnd (object members) rest exact = (refl, refl)

  pub items-EndsNumber :
      (items : Items) (rest : Bytes)
      → EndsNumber (items_text stream_digits false items ++ b']' ∷ rest)
  unfolding json_text is_digit
  items-EndsNumber empty_array rest = refl
  items-EndsNumber (item value items) rest = refl

  pub members-EndsNumber :
      (members : Members) (rest : Bytes)
      → EndsNumber (members_text stream_digits false members ++ b'}' ∷ rest)
  unfolding json_text is_digit
  members-EndsNumber empty_object rest = refl
  members-EndsNumber (member key value members) rest = refl
