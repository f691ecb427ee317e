-- ===== src/Foundation/Json/Literals.antt =====
-- String literals are read back.
use server_components.Common.{
  ℕ, ◌+◌, ◌*◌, ◌/◌, ◌%◌, ◌<◌, ◌≡◌, refl, Bool, true, false, ◌||◌, inl, inr, some, [], ◌∷◌, ◌++◌,
  append_assoc, ltb, ◌==◌, ==_iff, arith, Bytes, Bool-cases,
}
use server_components.Foundation.Json.{hex, escape_byte, escape_all, escaped_json_string}
use server_components.Foundation.Numbers.{is_digit}
use server_components.Foundation.Json.Reading.{
  plain, is_hex_digit, hex_value, unescape, push, read_chars,
}

hex_value-hex : (n : ℕ) → n < 16 → hex_value (hex n) ≡ n
unfolding hex_value hex
hex_value-hex n small = ground arith

is_hex_digit-hex : (n : ℕ) → n < 16 → is_hex_digit (hex n) ≡ true
unfolding is_hex_digit hex is_digit
is_hex_digit-hex n small = ground arith

zero-is_hex_digit : is_hex_digit b'0' ≡ true
unfolding is_hex_digit is_digit
zero-is_hex_digit = refl

-- The bytes that have an escape of their own.
abbrev is_special : ℕ → Bool
is_special c = c == b'"' || c == 92 || c == 8 || c == 12 || c == 10 || c == 13 || c == 9

escape_byte-low :
    (c : ℕ)
    → is_special c ≡ false
    → ltb c 32 ≡ true
    → escape_byte c ≡ 92 ∷ b'u' ∷ b'0' ∷ b'0' ∷ hex (c / 16 % 16) ∷ hex (c % 16) ∷ []
unfolding escape_byte
escape_byte-low c ordinary low = ground arith

escape_byte-high : (c : ℕ) → is_special c ≡ false → ltb c 32 ≡ false → escape_byte c ≡ c ∷ []
unfolding escape_byte
escape_byte-high c ordinary high = ground arith

read_chars-low :
    (c : ℕ) (s : Bytes)
    → c < 32
    → read_chars plain (92 ∷ b'u' ∷ b'0' ∷ b'0' ∷ hex (c / 16 % 16) ∷ hex (c % 16) ∷ s)
      ≡ push c (read_chars plain s)
unfolding read_chars
read_chars-low c s low =
    let high_digit = hex_value-hex (c / 16 % 16) (omega arith) in
    let low_digit = hex_value-hex (c % 16) (omega arith) in
    let value : (((0 * 16 + hex_value b'0') * 16 + hex_value b'0') * 16
              + hex_value (hex (c / 16 % 16)))
            * 16
          + hex_value (hex (c % 16))
        ≡ c =
      omega arith in
    let one_byte : ltb c 128 ≡ true = ground arith in
    rw (
      zero-is_hex_digit,
      is_hex_digit-hex (c / 16 % 16) (omega arith),
      is_hex_digit-hex (c % 16) (omega arith),
      value,
      one_byte,
    )

read_chars-high :
    (c : ℕ) (s : Bytes)
    → is_special c ≡ false
    → ltb c 32 ≡ false
    → read_chars plain (c ∷ s) ≡ push c (read_chars plain s)
unfolding read_chars
read_chars-high c s ordinary high =
    let no_quote : (c == b'"') ≡ false = ground arith in
    let no_escape : (c == 92) ≡ false = ground arith in rw (no_quote, no_escape, high) refl

read_chars-ordinary :
    (c : ℕ) (s : Bytes)
    → is_special c ≡ false
    → read_chars plain (escape_byte c ++ s) ≡ push c (read_chars plain s)
read_chars-ordinary c s ordinary = elim (Bool-cases (ltb c 32)) [
  | inl low ↦ rw (escape_byte-low c ordinary low) (read_chars-low c s (ground arith))
  | inr high ↦ rw (escape_byte-high c ordinary high) (read_chars-high c s ordinary high)
]

-- Each byte of a string is read back from what it is escaped as.
read_chars-escape_byte :
    (c : ℕ) (s : Bytes) → read_chars plain (escape_byte c ++ s) ≡ push c (read_chars plain s)
unfolding read_chars escape_byte unescape
read_chars-escape_byte c s = elim (Bool-cases (c == b'"')) [
  | inl e ↦ rw ((==_iff c b'"').0 e) refl
  | inr n1 ↦ elim (Bool-cases (c == 92)) [
    | inl e ↦ rw ((==_iff c 92).0 e) refl
    | inr n2 ↦ elim (Bool-cases (c == 8)) [
      | inl e ↦ rw ((==_iff c 8).0 e) refl
      | inr n3 ↦ elim (Bool-cases (c == 12)) [
        | inl e ↦ rw ((==_iff c 12).0 e) refl
        | inr n4 ↦ elim (Bool-cases (c == 10)) [
          | inl e ↦ rw ((==_iff c 10).0 e) refl
          | inr n5 ↦ elim (Bool-cases (c == 13)) [
            | inl e ↦ rw ((==_iff c 13).0 e) refl
            | inr n6 ↦ elim (Bool-cases (c == 9)) [
              | inl e ↦ rw ((==_iff c 9).0 e) refl
              | inr n7 ↦
                  let ordinary : is_special c ≡ false = ground arith in
                  read_chars-ordinary c s ordinary
            ]
          ]
        ]
      ]
    ]
  ]
]

pub read_chars-escape_all :
    (s rest : Bytes) → read_chars plain (escape_all s ++ b'"' ∷ rest) ≡ some (s, rest)
unfolding escape_all
read_chars-escape_all [] rest = unfold read_chars in refl
read_chars-escape_all (c ∷ s) rest =
    rw
      (
        append_assoc (escape_byte c) (escape_all s) (b'"' ∷ rest),
        read_chars-escape_byte c (escape_all s ++ b'"' ∷ rest),
        read_chars-escape_all s rest,
      )
      refl

-- A string literal, behind its opening quote.
pub literal-split :
    (s rest : Bytes) → escaped_json_string s ++ rest ≡ b'"' ∷ escape_all s ++ b'"' ∷ rest
unfolding escaped_json_string
literal-split s rest = rw (append_assoc (escape_all s) (b'"' ∷ []) rest) refl
