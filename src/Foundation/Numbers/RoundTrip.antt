-- ===== src/Foundation/Numbers/RoundTrip.antt =====
-- `std::stoll` reads back what `StringFromInt` prints.
use server_components.Common.Int.{ℤ, pos, negsuc}
use server_components.Common.{
  ℕ, zero, suc, ◌+◌, ◌-◌, ◌*◌, ◌/◌, ◌%◌, ◌≤◌, ◌<◌, ◌≡◌, refl, ◌∙◌, true, some, [], ◌∷◌, ◌++◌, arith,
  if◌then◌else◌, ltb, le→leb, Bytes, All, All-append, trim_front, inl, inr, Bool-cases,
}
use server_components.Foundation.Text.{is_space}
use server_components.Foundation.Numbers.{
  digits_from, string_from_int, is_digit, starts_with_digit, read_digits, int64_max, unsigned_part,
  negative_part, signed_part, stoll,
}

abbrev pub AreDigits : Bytes → Type 0
AreDigits s = All (λ c. is_digit c ≡ true) s

last_digit : (n : ℕ) → is_digit (b'0' + n % 10) ≡ true
unfolding is_digit
last_digit n = ground arith

pub digits_from-AreDigits : (fuel n : ℕ) → AreDigits (digits_from fuel n)
unfolding digits_from
digits_from-AreDigits zero n = tt
digits_from-AreDigits (suc fuel) n =
    All-append _ (if ltb n 10 then [] else digits_from fuel (n / 10)) _
      (ground (arith, digits_from-AreDigits fuel (n / 10))) (last_digit n, tt)

read_digits-append :
    (acc : ℕ) (s : Bytes) (c : ℕ)
    → AreDigits s
    → is_digit c ≡ true
    → read_digits acc (s ++ c ∷ []) ≡ read_digits acc s * 10 + (c - b'0')
unfolding read_digits
read_digits-append acc [] c h d = rw d
read_digits-append acc (e ∷ s) c h d =
    rw (h.0) (read_digits-append (acc * 10 + (e - b'0')) s c h.1 d)

-- Enough fuel prints every digit.
read_digits-digits_from : (fuel n : ℕ) → n < fuel → read_digits 0 (digits_from fuel n) ≡ n
unfolding digits_from
read_digits-digits_from zero n h = absurd (omega arith)
read_digits-digits_from (suc fuel) n h = elim (Bool-cases (ltb n 10)) [
  | inl small ↦ rw small (
      read_digits-append 0 [] (b'0' + n % 10) tt (last_digit n)
      ∙ unfold read_digits in (ground arith))
  | inr large ↦ rw large (
      read_digits-append 0 (digits_from fuel (n / 10)) (b'0' + n % 10)
        (digits_from-AreDigits fuel (n / 10)) (last_digit n)
      ∙ rw (read_digits-digits_from fuel (n / 10) (ground arith)) (omega arith))
]

starts_with_digit-append :
    (s : Bytes) (c : ℕ) → AreDigits s → is_digit c ≡ true → starts_with_digit (s ++ c ∷ []) ≡ true
unfolding starts_with_digit
starts_with_digit-append [] c h d = d
starts_with_digit-append (e ∷ s) c h d = h.0

pub starts_with_digit-digits_from :
    (fuel n : ℕ) → starts_with_digit (digits_from (suc fuel) n) ≡ true
unfolding digits_from
starts_with_digit-digits_from fuel n =
    starts_with_digit-append (if ltb n 10 then [] else digits_from fuel (n / 10)) (b'0' + n % 10)
      (ground (arith, digits_from-AreDigits fuel (n / 10))) (last_digit n)

-- Digits are neither white space nor a sign.
stoll_of_digits : (s : Bytes) → AreDigits s → stoll s ≡ unsigned_part s
unfolding stoll signed_part trim_front is_space
stoll_of_digits [] h = unfold unsigned_part starts_with_digit in refl
stoll_of_digits (c ∷ s) h = unfold is_digit in (ground arith)

stoll_of_minus : (s : Bytes) → stoll (b'-' ∷ s) ≡ negative_part s
unfolding stoll signed_part trim_front is_space
stoll_of_minus s = refl

-- The values of `int64_t`.
abbrev pub IsInt64 : ℤ → Type 0
IsInt64 (pos n) = n ≤ int64_max
IsInt64 (negsuc n) = n ≤ int64_max

-- Every 64-bit integer is read back from its printed form.
pub stoll-string_from_int : (v : ℤ) → IsInt64 v → stoll (string_from_int v) ≡ some v
unfolding string_from_int
stoll-string_from_int (pos n) h =
    stoll_of_digits (digits_from (suc n) n) (digits_from-AreDigits (suc n) n)
    ∙ unfold unsigned_part in
      (rw (
        starts_with_digit-digits_from n n,
        read_digits-digits_from (suc n) n (omega arith),
        le→leb n int64_max h,
      ))
stoll-string_from_int (negsuc n) h =
    stoll_of_minus (digits_from (suc (suc n)) (suc n))
    ∙ unfold negative_part in
      (rw
        (
          starts_with_digit-digits_from (suc n) (suc n),
          read_digits-digits_from (suc (suc n)) (suc n) (omega arith),
        )
        (ground arith))
