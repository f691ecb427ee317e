-- ===== src/Foundation/Text/Trimming.antt =====
-- What `StringTrim` takes off, and `StringToBool` on it.
use server_components.Common.{
  ℕ, ◌≡◌, refl, ◌≢◌, true, [], ◌∷◌, ◌++◌, arith, All, Bytes, IsTrimmed, trim_with_split,
  trim_with_padded,
}
use server_components.Foundation.Text.{is_space, string_trim, to_lower_byte, string_to_lower}

abbrev pub IsBlank : Bytes → Type 0
IsBlank s = All (λ c. is_space c ≡ true) s

-- A text is its trimmed form between two runs of white space, and the trimmed form neither begins nor
-- ends with white space.
pub string_trim_split :
    (s : Bytes)
    → (lead : Bytes) × (trail : Bytes) × IsBlank lead
      × IsBlank trail
      × (s ≡ lead ++ (string_trim s ++ trail))
      × IsTrimmed is_space (string_trim s)
unfolding string_trim
string_trim_split s = trim_with_split is_space s

-- A text that neither begins nor ends with white space comes back from any white space around it.
pub string_trim_padded :
    (lead s trail : Bytes)
    → IsBlank lead
    → IsBlank trail
    → s ≢ []
    → IsTrimmed is_space s
    → string_trim (lead ++ (s ++ trail)) ≡ s
unfolding string_trim
string_trim_padded lead s trail hl ht n h = trim_with_padded is_space lead s trail hl ht n h

to_lower_byte_idem : (c : ℕ) → to_lower_byte (to_lower_byte c) ≡ to_lower_byte c
unfolding to_lower_byte
to_lower_byte_idem c = ground arith

string_to_lower_idem : (s : Bytes) → string_to_lower (string_to_lower s) ≡ string_to_lower s
unfolding string_to_lower
string_to_lower_idem [] = refl
string_to_lower_idem (c ∷ s) = cc (to_lower_byte_idem c, string_to_lower_idem s)
