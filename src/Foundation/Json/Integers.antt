-- ===== src/Foundation/Json/Integers.antt =====
-- Integers are read back.
use server_components.Common.Int.{ℤ, pos, negsuc}
use server_components.Common.{
  ℕ, zero, suc, ◌+◌, ◌/◌, ◌%◌, ◌<◌, ◌≡◌, ◌≢◌, refl, ap, ◌∙◌, true, false, ◌||◌, some, [], ◌∷◌, ◌++◌,
  ◌==◌, arith, All, All-weaken, all_iff, Bytes, bytes_eq, ltb, inl, inr, Bool-cases,
}
use server_components.Foundation.Numbers.{digits_from, starts_with_digit, string_from_int, is_digit}
use server_components.Foundation.Numbers.RoundTrip.{
  IsInt64, AreDigits, digits_from-AreDigits, starts_with_digit-digits_from, stoll-string_from_int,
}
use server_components.Foundation.Json.{integer}
use server_components.Foundation.Json.Reading.{
  number_span, leads_number, is_natural_text, is_integer_text, read_number, read_value,
}

-- A byte that a number is written with.
abbrev pub IsNumberChar : ℕ → Type 0
IsNumberChar c = (is_digit c || c == b'-') ≡ true

-- The text does not go on with such a byte.
abbrev pub EndsNumber : Bytes → Type 0
EndsNumber [] = Unit
EndsNumber (c ∷ rest) = (is_digit c || c == b'-') ≡ false

number_span-append :
    (s rest : Bytes) → All IsNumberChar s → EndsNumber rest → number_span (s ++ rest) ≡ (s, rest)
unfolding number_span
number_span-append [] [] h ends = refl
number_span-append [] (c ∷ rest) h ends = rw ends refl
number_span-append (c ∷ s) rest (char, h) ends = rw (char, number_span-append s rest h ends) refl

no_other :
    (c : ℕ)
    → IsNumberChar c
    → ((c == b'"') ≡ false)
      × ((c == b'[') ≡ false)
      × ((c == b'{') ≡ false)
      × ((c == b'n') ≡ false)
      × ((c == b't') ≡ false)
      × ((c == b'f') ≡ false)
unfolding is_digit
no_other c char =
    (ground arith, ground arith, ground arith, ground arith, ground arith, ground arith)

read_value-number :
    (fuel : ℕ) (s rest : Bytes)
    → All IsNumberChar s
    → s ≢ []
    → read_value (suc fuel) (s ++ rest) ≡ read_number (s ++ rest)
unfolding read_value
read_value-number fuel [] rest h full = absurd (full refl)
read_value-number fuel (c ∷ s) rest (char, h) full =
    let (n1, n2, n3, n4, n5, n6) = no_other c char in rw (n1, n2, n3, n4, n5, n6) refl

digit_char : (c : ℕ) → is_digit c ≡ true → IsNumberChar c
digit_char c digit = rw digit refl

starts_with_digit-full : (s : Bytes) → starts_with_digit s ≡ true → s ≢ []
unfolding starts_with_digit
starts_with_digit-full [] starts e = cc
starts_with_digit-full (c ∷ s) starts e = cc

pub string_from_int-chars : (n : ℤ) → All IsNumberChar (string_from_int n)
unfolding string_from_int is_digit
string_from_int-chars (pos n) =
    All-weaken _ _ digit_char (digits_from (suc n) n) (digits_from-AreDigits (suc n) n)
string_from_int-chars (negsuc n) = (
  refl,
  All-weaken _ _ digit_char (digits_from (suc (suc n)) (suc n))
      (digits_from-AreDigits (suc (suc n)) (suc n)),
)

pub string_from_int-full : (n : ℤ) → string_from_int n ≢ []
unfolding string_from_int
string_from_int-full (pos n) e =
    starts_with_digit-full (digits_from (suc n) n) (starts_with_digit-digits_from n n) e
string_from_int-full (negsuc n) e = cc

leads_number-append : (s t : Bytes) → leads_number s ≡ true → leads_number (s ++ t) ≡ true
unfolding leads_number
leads_number-append [] t leads = cc
leads_number-append (c ∷ s) t leads = leads

-- Printed digits of a positive number begin with no zero.
leads_number-digits_from :
    (fuel n : ℕ) → n < fuel → 0 < n → leads_number (digits_from fuel n) ≡ true
unfolding digits_from
leads_number-digits_from zero n enough positive = absurd (omega arith)
leads_number-digits_from (suc fuel) n enough positive = elim (Bool-cases (ltb n 10)) [
  | inl small ↦ rw small (unfold leads_number is_digit in (ground arith))
  | inr large ↦ rw large (
      leads_number-append (digits_from fuel (n / 10)) ((b'0' + n % 10) ∷ [])
        (leads_number-digits_from fuel (n / 10) (ground arith) (ground arith)))
]

is_natural_text-digits_from : (n : ℕ) → 0 < n → is_natural_text (digits_from (suc n) n) ≡ true
unfolding is_natural_text
is_natural_text-digits_from n positive = rw (
  leads_number-digits_from (suc n) n (omega arith) positive,
  (all_iff is_digit (digits_from (suc n) n)).1 (digits_from-AreDigits (suc n) n),
)

no_sign : (s : Bytes) → AreDigits s → s ≢ [] → is_integer_text s ≡ is_natural_text s
unfolding is_integer_text is_digit
no_sign [] h full = absurd (full refl)
no_sign (c ∷ s) h full = let unsigned : (c == b'-') ≡ false = ground (arith, h.0) in rw unsigned

is_integer_text-string_from_int : (n : ℤ) → is_integer_text (string_from_int n) ≡ true
unfolding string_from_int
is_integer_text-string_from_int (pos zero) =
    unfold is_integer_text is_natural_text leads_number is_digit digits_from bytes_eq in refl
is_integer_text-string_from_int (pos (suc n)) =
    let digits = digits_from (suc (suc n)) (suc n) in
    no_sign digits (digits_from-AreDigits (suc (suc n)) (suc n))
      (starts_with_digit-full digits (starts_with_digit-digits_from (suc n) (suc n)))
    ∙ is_natural_text-digits_from (suc n) (omega arith)
is_integer_text-string_from_int (negsuc n) =
    unfold is_integer_text in is_natural_text-digits_from (suc n) (omega arith)

pub read_value-integer :
    (fuel : ℕ) (n : ℤ) (rest : Bytes)
    → IsInt64 n
    → EndsNumber rest
    → read_value (suc fuel) (string_from_int n ++ rest) ≡ some (integer n, rest)
unfolding read_number
read_value-integer fuel n rest fits ends =
    let span = number_span-append (string_from_int n) rest (string_from_int-chars n) ends in
    read_value-number fuel (string_from_int n) rest (string_from_int-chars n)
      (string_from_int-full n)
    ∙ rw (read_number, span, is_integer_text-string_from_int n, stoll-string_from_int n fits)
        (ap (λ found. some (integer n, found.1)) span)
