-- ===== src/Foundation/Json/RoundTrip.antt =====
-- What `ToString` writes is read back.
use server_components.Common.{
  ℕ, zero, suc, ◌≤◌, ◌≡◌, refl, sym, ap, subst, Bool, true, false, some, [], ◌∷◌, ◌++◌,
  append_assoc, arith, Bytes, starts_with,
}
use server_components.Foundation.Json.{
  Value, Items, Members, null, boolean, integer, number, text, array, object, empty_array, item,
  empty_object, member, escape_all, escaped_json_string, json_text, items_text, members_text,
  to_string,
}
use server_components.Foundation.Json.Reading.{
  read_word, read_key, behind_separator, read_value, read_items, read_members, as_text, as_array,
  as_object,
}
use server_components.Foundation.Json.Literals.{read_chars-escape_all}
use server_components.Foundation.Json.Integers.{EndsNumber, read_value-integer}
use server_components.Foundation.Json.Entries.{
  IsExact, AreExact, HasExact, fuel_for, items_fuel, members_fuel, json_text-OpensNoEnd,
  items-EndsNumber, members-EndsNumber, read_items-item, read_members-member, member_split,
  read_key-literal,
}

module _ (stream_digits : ℕ → Bytes) where
  -- Each is read back with whatever follows it, a value unless a number goes on.
  mutual
    unfolding read_value json_text IsExact fuel_for behind_separator read_key read_word starts_with

    read_back_value :
        (value : Value) (fuel : ℕ) (rest : Bytes)
        → fuel_for value ≤ fuel
        → IsExact value
        → EndsNumber rest
        → read_value fuel (json_text stream_digits value ++ rest) ≡ some (value, rest)
    read_back_value null zero rest enough exact ends = absurd (omega arith)
    read_back_value null (suc fuel) rest enough exact ends = refl
    read_back_value (boolean b) zero rest enough exact ends = absurd (omega arith)
    read_back_value (boolean true) (suc fuel) rest enough exact ends = refl
    read_back_value (boolean false) (suc fuel) rest enough exact ends = refl
    read_back_value (integer n) zero rest enough exact ends = absurd (omega arith)
    read_back_value (integer n) (suc fuel) rest enough exact ends =
        read_value-integer fuel n rest exact ends
    read_back_value (number d) fuel rest enough exact ends = absurd exact
    read_back_value (text s) zero rest enough exact ends = absurd (omega arith)
    read_back_value (text s) (suc fuel) rest enough exact ends =
        rw (append_assoc (escape_all s) (b'"' ∷ []) rest)
          (ap as_text (read_chars-escape_all s rest))
    read_back_value (array items) zero rest enough exact ends = absurd (omega arith)
    read_back_value (array items) (suc fuel) rest enough exact ends =
        rw (append_assoc (items_text stream_digits true items) (b']' ∷ []) rest)
          (ap as_array (read_back_items items fuel true rest (omega arith) exact))
    read_back_value (object members) zero rest enough exact ends = absurd (omega arith)
    read_back_value (object members) (suc fuel) rest enough exact ends =
        rw (append_assoc (members_text stream_digits true members) (b'}' ∷ []) rest)
          (ap as_object (read_back_members members fuel true rest (omega arith) exact))

    read_back_items :
        (items : Items) (fuel : ℕ) (first : Bool) (rest : Bytes)
        → items_fuel items ≤ fuel
        → AreExact items
        → read_items fuel first (items_text stream_digits first items ++ b']' ∷ rest)
          ≡ some (items, rest)
    read_back_items empty_array zero first rest enough exact = absurd (omega arith)
    read_back_items empty_array (suc fuel) first rest enough exact = refl
    read_back_items (item value items) zero first rest enough exact = absurd (omega arith)
    read_back_items (item value items) (suc fuel) true rest enough (exact, others) =
        let behind = items_text stream_digits false items ++ b']' ∷ rest in
        rw
          (append_assoc (json_text stream_digits value) (items_text stream_digits false items)
            (b']' ∷ rest))
          (read_items-item fuel true (json_text stream_digits value ++ behind)
            (json_text stream_digits value ++ behind) behind rest value items
            (json_text-OpensNoEnd stream_digits value behind exact).0 refl
            (read_back_value value fuel behind (omega arith) exact
              (items-EndsNumber stream_digits items rest))
            (read_back_items items fuel false rest (omega arith) others))
    read_back_items (item value items) (suc fuel) false rest enough (exact, others) =
        let behind = items_text stream_digits false items ++ b']' ∷ rest in
        rw
          (append_assoc (json_text stream_digits value) (items_text stream_digits false items)
            (b']' ∷ rest))
          (read_items-item fuel false (b',' ∷ json_text stream_digits value ++ behind)
            (json_text stream_digits value ++ behind) behind rest value items refl refl
            (read_back_value value fuel behind (omega arith) exact
              (items-EndsNumber stream_digits items rest))
            (read_back_items items fuel false rest (omega arith) others))

    read_back_members :
        (members : Members) (fuel : ℕ) (first : Bool) (rest : Bytes)
        → members_fuel members ≤ fuel
        → HasExact members
        → read_members fuel first (members_text stream_digits first members ++ b'}' ∷ rest)
          ≡ some (members, rest)
    read_back_members empty_object zero first rest enough exact = absurd (omega arith)
    read_back_members empty_object (suc fuel) first rest enough exact = refl
    read_back_members (member key value members) zero first rest enough exact = absurd (omega arith)
    read_back_members (member key value members) (suc fuel) true rest enough (exact, others) =
        let behind = members_text stream_digits false members ++ b'}' ∷ rest in
        let behind_key = json_text stream_digits value ++ behind in
        subst
          (λ (s : Bytes). read_members (suc fuel) true s ≡ some (member key value members, rest))
          (sym (
            member_split key (json_text stream_digits value)
              (members_text stream_digits false members) (b'}' ∷ rest)))
          (read_members-member fuel true (escaped_json_string key ++ b':' ∷ behind_key)
            (escaped_json_string key ++ b':' ∷ behind_key) behind_key behind rest key value members
            refl refl (read_key-literal key behind_key)
            (read_back_value value fuel behind (omega arith) exact
              (members-EndsNumber stream_digits members rest))
            (read_back_members members fuel false rest (omega arith) others))
    read_back_members (member key value members) (suc fuel) false rest enough (exact, others) =
        let behind = members_text stream_digits false members ++ b'}' ∷ rest in
        let behind_key = json_text stream_digits value ++ behind in
        subst
          (λ (s : Bytes).
            read_members (suc fuel) false (b',' ∷ s) ≡ some (member key value members, rest))
          (sym (
            member_split key (json_text stream_digits value)
              (members_text stream_digits false members) (b'}' ∷ rest)))
          (read_members-member fuel false (b',' ∷ escaped_json_string key ++ b':' ∷ behind_key)
            (escaped_json_string key ++ b':' ∷ behind_key) behind_key behind rest key value members
            refl refl (read_key-literal key behind_key)
            (read_back_value value fuel behind (omega arith) exact
              (members-EndsNumber stream_digits members rest))
            (read_back_members members fuel false rest (omega arith) others))

-- What is written for a value is read as that value: with the fuel that its size asks for, or more, and with any text behind it
-- that does not go on a number, the reader returns the value and leaves that text. The reader takes no raw control
-- character in a string, no escape that JSON does not have, and no number with a leading zero. Doubles are left out, and
-- integers have 64 bits; strings and keys may hold any bytes.
pub read_value-to_string :
    (stream_digits : ℕ → Bytes) (value : Value) (fuel : ℕ) (rest : Bytes)
    → fuel_for value ≤ fuel
    → IsExact value
    → EndsNumber rest
    → read_value fuel (to_string stream_digits value ++ rest) ≡ some (value, rest)
read_value-to_string stream_digits = read_back_value stream_digits
