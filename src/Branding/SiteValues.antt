-- ===== src/Branding/SiteValues.antt =====
-- components/platform/business_logic/branding/site_value_validation.cpp: the values that a tenant may
-- store. A message is the text of the reason, and the empty text means that the value is accepted.
-- Bytes are 0 to 255; each comparison of a `char` below comes out the same for a signed one.
pub mod Shapes
pub mod CssLengths
pub mod Slots
mod Tests
use server_components.Common.Int.{pos}
use server_components.Common.{
  ℕ, zero, suc, ◌+◌, ◌-◌, ◌%◌, ◌≡◌, Bool, true, false, ◌&&◌, ◌||◌, not, Option, none, some, List,
  [], ◌∷◌, ◌++◌, if◌then◌else◌, leb, ltb, ◌==◌, length, all, any, Bytes, bytes, is_empty, bytes_eq,
  starts_with,
}
use server_components.Foundation.Text.{format_string}
use server_components.Foundation.Numbers.{string_from_int}

pub data SlotType : Type 0 where
  line lines markdown url color : SlotType

abbrev pub max_line_bytes : ℕ
max_line_bytes = 1024

abbrev pub max_lines_bytes : ℕ
max_lines_bytes = 4096

abbrev pub max_markdown_bytes : ℕ
max_markdown_bytes = 65536

abbrev pub max_url_bytes : ℕ
max_url_bytes = 2048

abbrev pub control_char_message : Bytes
control_char_message = bytes "Value contains a control character."

abbrev pub multi_line_message : Bytes
multi_line_message = bytes "Value must be a single line."

abbrev pub bad_url_message : Bytes
bad_url_message = bytes "Value must be an http(s) URL or a root-relative path beginning with '/'."

abbrev pub bad_color_message : Bytes
bad_color_message = bytes "Value must be a color in #RRGGBB form."

unfoldable pub is_hex_digit : ℕ → Bool
is_hex_digit c = leb b'0' c && leb c b'9' || leb b'a' c && leb c b'f' || leb b'A' c && leb c b'F'

unfoldable pub is_control_byte : ℕ → Bool
is_control_byte c = ltb c 32 || c == 127

unfoldable pub too_long_message : ℕ → Bytes
too_long_message limit =
    format_string (bytes "Value is longer than the {limit}-byte limit for this field.")
      ((bytes "limit", string_from_int (pos limit)) ∷ [])

unfoldable pub has_disallowed_control_byte : Bytes → Bool → Bool → Bool
unfolding is_control_byte
has_disallowed_control_byte [] allow_newline allow_tab = false
has_disallowed_control_byte (c ∷ value) allow_newline allow_tab =
    let rest = has_disallowed_control_byte value allow_newline allow_tab in
    if not (is_control_byte c)
    then rest
    else if allow_newline && c == 10
    then rest
    else if allow_tab && c == 9
    then rest
    else true

unfoldable pub is_valid_hex_color : Bytes → Bool
unfolding is_hex_digit
is_valid_hex_color [] = false
is_valid_hex_color (c ∷ digits) =
    if not (suc (length digits) == 7) || not (c == b'#') then false else all is_hex_digit digits

-- The last test of `IsValidSiteUrl`: a root-relative path.
unfoldable pub is_root_relative : Bytes → Bool
is_root_relative [] = false
is_root_relative (c ∷ []) = c == b'/'
is_root_relative (c ∷ d ∷ rest) = c == b'/' && not (d == b'/') && not (d == 92)

unfoldable pub is_valid_site_url : Bytes → Bool
is_valid_site_url value =
    if ltb max_url_bytes (length value)
    then false
    else if any (λ c. is_control_byte c || c == b' ') value
    then false
    else if starts_with (bytes "http://") value
    then ltb 7 (length value)
    else if starts_with (bytes "https://") value
    then ltb 8 (length value)
    else is_root_relative value

unfoldable pub is_decimal_digit : ℕ → Bool
is_decimal_digit c = leb b'0' c && leb c b'9'

-- The digit loop of `IsValidCssLength`: what follows the digits, and whether there was one.
unfoldable pub skip_digits : Bool → Bytes → Bool × Bytes
skip_digits saw_digit [] = (saw_digit, [])
skip_digits saw_digit (c ∷ s) =
    let more = skip_digits true s in if is_decimal_digit c then more else (saw_digit, c ∷ s)

-- The optional fraction behind the digits.
unfoldable pub skip_fraction : Bool → Bytes → Bool × Bytes
skip_fraction saw_digit [] = (saw_digit, [])
skip_fraction saw_digit (c ∷ s) = if c == b'.' then skip_digits saw_digit s else (saw_digit, c ∷ s)

unfoldable pub is_css_unit : Bytes → Bool
is_css_unit u =
    bytes_eq u (bytes "px")
    || bytes_eq u (bytes "rem")
    || bytes_eq u (bytes "em")
    || bytes_eq u (bytes "%")
    || bytes_eq u (bytes "pt")

unfoldable pub is_valid_css_length : Bytes → Bool
is_valid_css_length value =
    if is_empty value || ltb 16 (length value)
    then false
    else if bytes_eq value (bytes "0")
    then true
    else (let (saw_whole, behind) = skip_digits false value in
        let (saw_digit, unit) = skip_fraction saw_whole behind in
        if not saw_digit then false else is_css_unit unit)

unfoldable pub is_font_char : ℕ → Bool
is_font_char c =
    leb b'a' c && leb c b'z'
    || leb b'A' c && leb c b'Z'
    || leb b'0' c && leb c b'9'
    || c == b' '
    || c == b'-'
    || c == b'_'
    || c == b','

-- The loop of `IsValidFontFamilyList` over what is left, with the number of quotes so far.
unfoldable pub font_family_from : ℕ → Bytes → Bool
unfolding is_font_char
font_family_from quotes [] = quotes % 2 == 0
font_family_from quotes (c ∷ s) =
    let rest = font_family_from (if c == b'"' then quotes + 1 else quotes) s in
    if c == b'"' then rest else if not (is_font_char c) then false else rest

unfoldable pub is_valid_font_family_list : Bytes → Bool
unfolding font_family_from
is_valid_font_family_list value =
    if is_empty value || ltb 256 (length value) then false else font_family_from 0 value

unfoldable pub validate_line : Bytes → Bytes
validate_line value =
    if ltb max_line_bytes (length value)
    then too_long_message max_line_bytes
    else if any (λ c. c == 10 || c == 13) value
    then multi_line_message
    else if has_disallowed_control_byte value false false
    then control_char_message
    else []

unfoldable pub validate_slot_value : SlotType → Bytes → Bytes
unfolding validate_line
validate_slot_value type [] = []
validate_slot_value line (c ∷ value) = validate_line (c ∷ value)
validate_slot_value lines (c ∷ value) =
    if ltb max_lines_bytes (length (c ∷ value))
    then too_long_message max_lines_bytes
    else if has_disallowed_control_byte (c ∷ value) true false
    then control_char_message
    else []
validate_slot_value markdown (c ∷ value) =
    if ltb max_markdown_bytes (length (c ∷ value))
    then too_long_message max_markdown_bytes
    else if has_disallowed_control_byte (c ∷ value) true true
    then control_char_message
    else []
validate_slot_value url (c ∷ value) =
    if ltb max_url_bytes (length (c ∷ value))
    then too_long_message max_url_bytes
    else if not (is_valid_site_url (c ∷ value))
    then bad_url_message
    else []
validate_slot_value color (c ∷ value) =
    if not (is_valid_hex_color (c ∷ value)) then bad_color_message else []

-- The loop of `NormalizeLineEndings`; the flag says that the byte before was a CR, whose LF is
-- swallowed here.
unfoldable pub line_endings_from : Bool → Bytes → Bytes
line_endings_from after_cr [] = []
line_endings_from after_cr (c ∷ s) =
    (if after_cr && c == 10 then [] else if c == 13 then 10 ∷ [] else c ∷ [])
    ++ line_endings_from (c == 13) s

unfoldable pub normalize_line_endings : Bytes → Bytes
unfolding line_endings_from
normalize_line_endings value = line_endings_from false value

unfoldable pub normalize_slot_value : SlotType → Bytes → Bytes
normalize_slot_value type value =
    let normalized = normalize_line_endings value in
    if not (is_empty (validate_slot_value type normalized)) then [] else normalized
