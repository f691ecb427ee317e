-- ===== src/Foundation/ICal/Escaping.antt =====
-- `EscapeICalText` against an unescaper that is written independently.
use server_components.Common.{
  ℕ, ◌≡◌, refl, ◌∙◌, ◌≢◌, Bool, true, false, not, [], ◌∷◌, ◌++◌, arith, if◌then◌else◌, ◌==◌, All,
  All-append, keep, Bytes,
}
use server_components.Foundation.ICal.{escape_byte, escape_ical_text}

-- Reads the text form of RFC 5545; the flag says that the byte before was an escaping backslash.
pub unescape : Bool → Bytes → Bytes
unescape escaped [] = []
unescape true (c ∷ s) = (if c == b'n' then 10 else c) ∷ unescape false s
unescape false (c ∷ s) =
    let plain = c ∷ unescape false s in
    let after = unescape true s in if c == 92 then after else plain

unescape-escape_byte :
    (c : ℕ) (t : Bytes)
    → unescape false (escape_byte c ++ t) ≡ (if c == 13 then [] else c ∷ []) ++ unescape false t
unfolding unescape escape_byte
unescape-escape_byte c t = ground arith

escape_byte-OneLine : (c : ℕ) → All (λ d. (d ≢ 13) × (d ≢ 10)) (escape_byte c)
unfolding escape_byte
escape_byte-OneLine c = ground arith

-- Unescaping gives the text back without its carriage returns, and the escaped text stays on its line:
-- it holds neither a carriage return nor a line feed.
pub escape_ical_text_lem :
    (text : Bytes)
    → (unescape false (escape_ical_text text) ≡ keep (λ c. not (c == 13)) text)
      × All (λ d. (d ≢ 13) × (d ≢ 10)) (escape_ical_text text)
unfolding escape_ical_text
escape_ical_text_lem [] = (unfold unescape in refl, tt)
escape_ical_text_lem (c ∷ text) =
    let (back, one_line) = escape_ical_text_lem text in
    (
      unescape-escape_byte c (escape_ical_text text) ∙ ground arith,
      All-append _ (escape_byte c) (escape_ical_text text) (escape_byte-OneLine c) one_line,
    )
