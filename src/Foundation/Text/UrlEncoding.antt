-- ===== src/Foundation/Text/UrlEncoding.antt =====
-- `URLEncodeQueryValue` against a percent decoder that is written independently.
use server_components.Common.{
  ℕ, zero, suc, ◌+◌, ◌-◌, ◌*◌, ◌<◌, ◌≤◌, ◌≡◌, refl, subst, ap, ◌∙◌, ◌/◌, ◌%◌, inl, inr, Bool-cases,
  Bool, true, false, ◌&&◌, ◌||◌, [], ◌∷◌, ◌++◌, arith, ◌==◌, leb, if◌then◌else◌, Bytes, All,
  All-append,
}
use server_components.Foundation.Text.{
  is_unreserved, hex_digit, url_encode_byte, url_encode_query_value,
}

-- The value of an upper-case hexadecimal digit.
abbrev pub hex_value : ℕ → ℕ
hex_value c = if leb c b'9' then c - b'0' else c + 10 - b'A'

-- Between escapes, after a percent sign, or after its first digit.
pub data Mode : Type 0 where
  plain percent : Mode
  digit : ℕ → Mode

pub percent_decode : Mode → Bytes → Bytes
percent_decode m [] = []
percent_decode plain (c ∷ s) =
    let skip = percent_decode percent s in
    let copy = c ∷ percent_decode plain s in if c == b'%' then skip else copy
percent_decode percent (c ∷ s) = percent_decode (digit (hex_value c)) s
percent_decode (digit h) (c ∷ s) = (h * 16 + hex_value c) ∷ percent_decode plain s

-- A test that holds at a number and at those that follow it, so many in all.
holds_from : (ℕ → Bool) → ℕ → ℕ → Bool
holds_from test start zero = true
holds_from test start (suc more) = test start && holds_from test (suc start) more

holds_from_lem :
    (test : ℕ → Bool) (start more d : ℕ)
    → holds_from test start more ≡ true
    → start ≤ d
    → d < start + more
    → test d ≡ true
unfolding holds_from
holds_from_lem test start zero d run low high = absurd (omega arith)
holds_from_lem test start (suc more) d run low high = elim (Bool-cases (start == d)) [
  | inl here ↦ let same : start ≡ d = ground arith in subst (λ k. test k ≡ true) same (ground arith)
  | inr later ↦ holds_from_lem test (suc start) more d (ground arith) (ground arith) (omega arith)
]

hex_digit-table :
    holds_from (λ d. hex_value (hex_digit d) == d && is_unreserved (hex_digit d)) 0 16 ≡ true
unfolding holds_from hex_digit is_unreserved
hex_digit-table = refl

hex_digit_lem :
    (d : ℕ) → d < 16 → (hex_value (hex_digit d) ≡ d) × (is_unreserved (hex_digit d) ≡ true)
hex_digit_lem d h =
    let fact = holds_from_lem _ 0 16 d hex_digit-table (omega arith) h in
    (ground arith, ground arith)

unreserved-ne-percent : (c : ℕ) → is_unreserved c ≡ true → (c == b'%') ≡ false
unfolding is_unreserved
unreserved-ne-percent c h = ground arith

decode-encode_byte :
    (c : ℕ) (t : Bytes)
    → c < 256
    → percent_decode plain (url_encode_byte c ++ t) ≡ c ∷ percent_decode plain t
unfolding percent_decode url_encode_byte
decode-encode_byte c t h = elim (Bool-cases (is_unreserved c)) [
  | inl keeps ↦ rw keeps (rw (unreserved-ne-percent c keeps))
  | inr escapes ↦
      let (high, _) = hex_digit_lem (c / 16) (omega arith) in
      let (low, _) = hex_digit_lem (c % 16) (omega arith) in
      rw escapes (rw (high, low) (ap (λ d. d ∷ percent_decode plain t) (omega arith)))
]

encode_byte-safe :
    (c : ℕ) → c < 256 → All (λ b. (is_unreserved b || b == b'%') ≡ true) (url_encode_byte c)
unfolding url_encode_byte
encode_byte-safe c h =
    let (_, high) = hex_digit_lem (c / 16) (omega arith) in
    let (_, low) = hex_digit_lem (c % 16) (omega arith) in ground arith

-- Percent decoding gives back any text of bytes, and the encoded text holds only unreserved
-- characters and percent signs.
pub url_encode_query_value_lem :
    (value : Bytes)
    → All (λ c. c < 256) value
    → (percent_decode plain (url_encode_query_value value) ≡ value)
      × All (λ b. (is_unreserved b || b == b'%') ≡ true) (url_encode_query_value value)
unfolding url_encode_query_value
url_encode_query_value_lem [] h = (unfold percent_decode in refl, tt)
url_encode_query_value_lem (c ∷ value) (h, hs) =
    let (back, safe) = url_encode_query_value_lem value hs in
    (
      decode-encode_byte c (url_encode_query_value value) h ∙ ap (◌∷◌ c) back,
      All-append _ (url_encode_byte c) (url_encode_query_value value) (encode_byte-safe c h) safe,
    )
