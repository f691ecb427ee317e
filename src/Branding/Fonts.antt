-- ===== src/Branding/Fonts.antt =====
-- components/platform/business_logic/branding/site_font_inventory.cpp: the checks of what a site says about its fonts,
-- and the texts that are built from it. Bytes are 0 to 255; each comparison of a `char` below comes out the same for a
-- signed one.
use server_components.Common.{
  ℕ, ◌+◌, Bool, true, false, ◌&&◌, ◌||◌, not, none, some, List, [], ◌∷◌, ◌++◌, if◌then◌else◌, leb,
  ltb, ◌==◌, length, all, any, take, drop, Bytes, bytes, is_empty, bytes_eq, starts_with, find_byte,
  trim_front, trim_back,
}
use server_components.Branding.BundleAssets.{is_ascii_alnum}

abbrev pub max_font_url_bytes : ℕ
max_font_url_bytes = 2048

abbrev pub max_family_bytes : ℕ
max_family_bytes = 64

abbrev pub max_spec_bytes : ℕ
max_spec_bytes = 256

unfoldable pub has_control_or_space : Bytes → Bool
has_control_or_space value = any (λ c. leb c 32 || c == 127) value

unfoldable pub is_true : Bytes → Bool
is_true value =
    bytes_eq value (bytes "t") || bytes_eq value (bytes "true") || bytes_eq value (bytes "TRUE")

unfoldable pub font_format_from_magic_bytes : Bytes → Bytes
font_format_from_magic_bytes s =
    if ltb (length s) 4
    then []
    else if starts_with (bytes "wOF2") s
    then bytes "woff2"
    else if starts_with (bytes "wOFF") s
    then bytes "woff"
    else if starts_with (bytes "OTTO") s
    then bytes "otf"
    else if starts_with (0 ∷ 1 ∷ 0 ∷ 0 ∷ []) s
    then bytes "ttf"
    else if starts_with (bytes "true") s
    then bytes "ttf"
    else if starts_with (bytes "ttcf") s
    then bytes "ttf"
    else []

-- A byte that would end the attribute that the URL is written into.
unfoldable pub breaks_out : ℕ → Bool
breaks_out c = c == b'"' || c == 39 || c == b'<' || c == b'>' || c == 92

unfoldable pub is_valid_font_source_url : Bytes → Bool
unfolding has_control_or_space breaks_out
is_valid_font_source_url value =
    if is_empty value || ltb max_font_url_bytes (length value)
    then false
    else if has_control_or_space value
    then false
    else if not (starts_with (bytes "https://") value) || leb (length value) 8
    then false
    else not (any breaks_out value)

unfoldable pub is_family_char : ℕ → Bool
is_family_char c = is_ascii_alnum c || c == b' ' || c == b'-' || c == b'_'

unfoldable pub is_valid_font_family_name : Bytes → Bool
unfolding is_family_char
is_valid_font_family_name value =
    if is_empty value || ltb max_family_bytes (length value)
    then false
    else all is_family_char value

unfoldable pub is_spec_char : ℕ → Bool
is_spec_char c =
    is_ascii_alnum c
    || c == b'='
    || c == b':'
    || c == b'@'
    || c == b'.'
    || c == b','
    || c == b'+'
    || c == b'-'
    || c == b'_'
    || c == b';'
    || c == b'%'

unfoldable pub is_valid_font_spec : Bytes → Bool
unfolding has_control_or_space is_spec_char
is_valid_font_spec value =
    if is_empty value || ltb max_spec_bytes (length value)
    then false
    else if has_control_or_space value
    then false
    else all is_spec_char value

-- The lines that the loop of `ParsePreconnectLines` looks at.
unfoldable pub lines_of : Bytes → List Bytes
lines_of [] = [] ∷ []
lines_of (c ∷ s) = elim (lines_of s) [
  | [] ↦ (c ∷ []) ∷ []
  | line ∷ rest ↦ if c == 10 then [] ∷ line ∷ rest else (c ∷ line) ∷ rest
]

-- A line without the spaces around it and the carriage returns behind it.
unfoldable pub trim_line : Bytes → Bytes
trim_line line = trim_front (λ c. c == b' ') (trim_back (λ c. c == 13 || c == b' ') line)

-- The address of a line, and whether it is cross-origin.
unfoldable pub split_bar : Bytes → Bytes × Bool
unfolding is_true
split_bar line = elim (find_byte b'|' line) [
  | some bar ↦ (take bar line, is_true (drop (bar + 1) line))
  | none ↦ (line, is_true [])
]

unfoldable pub preconnects_from : List Bytes → List (Bytes × Bool)
unfolding trim_line split_bar is_valid_font_source_url
preconnects_from [] = []
preconnects_from (line ∷ lines) =
    let rest = preconnects_from lines in
    if is_empty (trim_line line)
    then rest
    else if not (is_valid_font_source_url (split_bar (trim_line line)).0)
    then rest
    else split_bar (trim_line line) ∷ rest

unfoldable pub parse_preconnect_lines : Bytes → List (Bytes × Bool)
unfolding lines_of preconnects_from
parse_preconnect_lines lines = preconnects_from (lines_of lines)

-- The loop of `BuildFontStylesheetUrl`: the text so far, and whether no specification has been added.
unfoldable pub add_specs : Bytes → Bool → List Bytes → Bytes × Bool
unfolding is_valid_font_spec
add_specs url first [] = (url, first)
add_specs url first (spec ∷ specs) =
    let valid = is_valid_font_spec spec in
    add_specs (if valid then url ++ ((if first then [] else bytes "&") ++ spec) else url)
      (first && not valid) specs

unfoldable pub build_font_stylesheet_url : Bytes → List Bytes → Bytes → Bytes
unfolding add_specs is_valid_font_source_url
build_font_stylesheet_url base_url specs query_suffix =
    if is_empty specs || not (is_valid_font_source_url base_url)
    then []
    else (let (url, first) = add_specs (base_url ++ bytes "?") true specs in
        if first
        then []
        else if not (is_empty query_suffix) && is_valid_font_spec query_suffix
        then url ++ (bytes "&" ++ query_suffix)
        else url)

unfoldable pub compose_font_stack : Bytes → Bytes → Bytes
unfolding is_valid_font_family_name
compose_font_stack family fallback =
    if not (is_valid_font_family_name family)
    then []
    else if is_empty fallback
    then bytes "'" ++ (family ++ bytes "'")
    else bytes "'" ++ (family ++ (bytes "'" ++ (bytes ", " ++ fallback)))
