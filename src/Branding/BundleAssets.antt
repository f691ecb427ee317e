-- ===== src/Branding/BundleAssets.antt =====
-- components/platform/business_logic/branding/theme_bundle_assets.cpp: the names of the files of a theme bundle,
-- and what a file is. Bytes are 0 to 255; each comparison of a `char` below comes out the same for a signed one.
pub mod Naming
mod Tests
use server_components.Common.{
  ℕ, ◌+◌, ◌-◌, ◌%◌, Bool, true, false, ◌&&◌, ◌||◌, not, Option, none, some, List, [], ◌∷◌, ◌++◌,
  if◌then◌else◌, leb, ltb, ◌==◌, length, all, any, map, take, drop, Bytes, bytes, is_empty,
  bytes_eq, starts_with, trim_back,
}
use server_components.Foundation.Text.{find_bytes}

abbrev pub max_asset_name_bytes : ℕ
max_asset_name_bytes = 64

abbrev pub max_bundle_assets : ℕ
max_bundle_assets = 64

abbrev pub max_bundle_asset_bytes : ℕ
max_bundle_asset_bytes = 8388608

abbrev pub max_bundle_total_bytes : ℕ
max_bundle_total_bytes = 67108864

-- `s.find(needle) != npos`
unfoldable pub contains : Bytes → Bytes → Bool
contains needle s = elim (find_bytes needle s) [ some i ↦ true | none ↦ false ]

unfoldable pub is_ascii_alnum : ℕ → Bool
is_ascii_alnum c = leb b'A' c && leb c b'Z' || leb b'a' c && leb c b'z' || leb b'0' c && leb c b'9'

unfoldable pub is_asset_name_char : ℕ → Bool
unfolding is_ascii_alnum
is_asset_name_char c = is_ascii_alnum c || c == b'.' || c == b'_' || c == b'-'

abbrev pub lower_char : ℕ → ℕ
lower_char c = if leb b'A' c && leb c b'Z' then c + 32 else c

unfoldable pub to_lower : Bytes → Bytes
to_lower value = map lower_char value

unfoldable pub is_valid_bundle_asset_name : Bytes → Bool
unfolding is_ascii_alnum is_asset_name_char contains
is_valid_bundle_asset_name [] = false
is_valid_bundle_asset_name (c ∷ name) =
    if ltb max_asset_name_bytes (length (c ∷ name))
    then false
    else if not (is_ascii_alnum c)
    then false
    else if not (all is_asset_name_char (c ∷ name))
    then false
    else not (contains (bytes "..") (c ∷ name))

unfoldable pub is_external_url_value : Bytes → Bool
unfolding contains
is_external_url_value value = contains (bytes "://") value

unfoldable pub is_bundle_asset_reference : Bytes → Bool
unfolding is_external_url_value is_valid_bundle_asset_name
is_bundle_asset_reference value =
    if is_empty value || is_external_url_value value
    then false
    else is_valid_bundle_asset_name value

-- The loop of `FindCaseInsensitiveDuplicate` over the names that are left.
unfoldable pub duplicate_from : List Bytes → List Bytes → Bytes
unfolding to_lower
duplicate_from seen [] = []
duplicate_from seen (name ∷ names) =
    let rest = duplicate_from (to_lower name ∷ seen) names in
    if any (λ s. bytes_eq s (to_lower name)) seen then name else rest

unfoldable pub find_case_insensitive_duplicate : List Bytes → Bytes
unfolding duplicate_from
find_case_insensitive_duplicate names = duplicate_from [] names

unfoldable pub after_slash : Bytes → Bytes
after_slash [] = []
after_slash (c ∷ type) =
    let rest = after_slash type in
    if c == b'/' && not (any (λ d. d == b'/') type) then type else rest

-- The subtype of a MIME type, which is what follows the last slash.
unfoldable pub subtype : Bytes → Bytes
unfolding after_slash
subtype type = if any (λ d. d == b'/') type then after_slash type else type

unfoldable pub extension_for_image_type : Bytes → Bytes
unfolding to_lower subtype
extension_for_image_type image_type =
    let type = subtype (to_lower image_type) in
    if bytes_eq type (bytes "jpeg") || bytes_eq type (bytes "jpg")
    then bytes "jpg"
    else if bytes_eq type (bytes "png")
    then bytes "png"
    else if bytes_eq type (bytes "gif")
    then bytes "gif"
    else if bytes_eq type (bytes "webp")
    then bytes "webp"
    else if bytes_eq type (bytes "svg") || bytes_eq type (bytes "svg+xml")
    then bytes "svg"
    else if bytes_eq type (bytes "tiff") || bytes_eq type (bytes "tif")
    then bytes "tif"
    else []

unfoldable pub extension_for_font_format : Bytes → Bytes
unfolding to_lower
extension_for_font_format font_format =
    let format = to_lower font_format in
    if bytes_eq format (bytes "woff2")
    then bytes "woff2"
    else if bytes_eq format (bytes "woff")
    then bytes "woff"
    else if bytes_eq format (bytes "ttf")
    then bytes "ttf"
    else if bytes_eq format (bytes "otf")
    then bytes "otf"
    else []

abbrev pub png_signature : Bytes
png_signature = 137 ∷ 80 ∷ 78 ∷ 71 ∷ 13 ∷ 10 ∷ 26 ∷ 10 ∷ []

abbrev pub jpeg_signature : Bytes
jpeg_signature = 255 ∷ 216 ∷ 255 ∷ []

unfoldable pub image_type_from_magic_bytes : Bytes → Bytes
unfolding contains
image_type_from_magic_bytes s =
    if starts_with png_signature s
    then bytes "png"
    else if starts_with jpeg_signature s
    then bytes "jpeg"
    else if starts_with (bytes "GIF87a") s || starts_with (bytes "GIF89a") s
    then bytes "gif"
    else if leb 12 (length s)
        && starts_with (bytes "RIFF") s
        && bytes_eq (take 4 (drop 8 s)) (bytes "WEBP")
    then bytes "webp"
    else if contains (bytes "<svg") (take 512 s)
    then bytes "svg"
    else []

-- The loop of `SanitizeAssetStem` over the lowered text, with whether the stem has begun, and whether a separator
-- was the last that was added to it.
unfoldable pub stem_from : Bool → Bool → Bytes → Bytes
unfolding is_ascii_alnum
stem_from begun last_was_separator [] = []
stem_from begun last_was_separator (c ∷ text) =
    let rest = stem_from (begun || is_ascii_alnum c) (not (is_ascii_alnum c) && begun) text in
    if is_ascii_alnum c
    then c ∷ rest
    else if begun && not last_was_separator
    then b'-' ∷ rest
    else rest

unfoldable pub sanitize_asset_stem : Bytes → Bytes
unfolding stem_from to_lower
sanitize_asset_stem text = trim_back (λ c. c == b'-') (stem_from false false (to_lower text))

-- `kMaxAssetNameBytes - extension.size() - 1` in 64 bits.
unfoldable pub room_for_stem : Bytes → ℕ
room_for_stem extension =
    (18446744073709551616 + max_asset_name_bytes - length extension - 1) % 18446744073709551616

-- A text, or the name that stands in for none.
abbrev pub or_asset : Bytes → Bytes
or_asset [] = bytes "asset"
or_asset (c ∷ stem) = c ∷ stem

unfoldable pub fit_stem : ℕ → Bytes → Bytes
fit_stem room stem =
    if ltb room (length stem) then or_asset (trim_back (λ c. c == b'-') (take room stem)) else stem

unfoldable pub make_asset_name : Bytes → Bytes → Bytes
unfolding sanitize_asset_stem room_for_stem fit_stem is_valid_bundle_asset_name
make_asset_name stem [] = []
make_asset_name stem (e ∷ extension) =
    let clean_stem =
      fit_stem (room_for_stem (e ∷ extension)) (or_asset (sanitize_asset_stem stem)) in
    let name = clean_stem ++ b'.' ∷ e ∷ extension in
    if is_valid_bundle_asset_name name then name else []
