-- ===== src/Branding/Bundle/Fatal.antt =====
-- `FindFatalBundleProblem` of theme_bundle_import.cpp: what refuses a bundle as a whole.
use server_components.Common.{
  ℕ, ◌+◌, Bool, ◌&&◌, not, List, [], ◌∷◌, ◌++◌, if◌then◌else◌, ltb, length, Bytes, bytes, is_empty,
  bytes_eq, starts_with,
}
use server_components.Data.Metadata.{KeyValueTable}
use server_components.Branding.BundleAssets.{
  is_valid_bundle_asset_name, find_case_insensitive_duplicate, image_type_from_magic_bytes,
  max_bundle_assets, max_bundle_asset_bytes, max_bundle_total_bytes,
}
use server_components.Branding.Fonts.{font_format_from_magic_bytes}
use server_components.Branding.Bundle.{ThemeBundle, site_logo_url, is_slot, is_token, quoted}

-- The loop of `FindFatalBundleProblem` over the files; `none` when all of them pass.
unfoldable pub asset_problem : KeyValueTable → Bytes
asset_problem [] = []
asset_problem ((name, contents) ∷ assets) =
    let rest = asset_problem assets in
    if not (is_valid_bundle_asset_name name)
    then quoted name (bytes " is not a usable file name.")
    else if ltb max_bundle_asset_bytes (length contents)
    then quoted name (bytes " is larger than we can accept.")
    else if is_empty (font_format_from_magic_bytes contents)
        && is_empty (image_type_from_magic_bytes contents)
    then quoted name (bytes " is not an image or a font.")
    else rest

unfoldable pub total_bytes : KeyValueTable → ℕ
total_bytes [] = 0
total_bytes ((name, contents) ∷ assets) = length contents + total_bytes assets

abbrev pub names_of : KeyValueTable → List Bytes
names_of [] = []
names_of ((name, contents) ∷ assets) = name ∷ names_of assets

-- A key that the first of the two loops over settings refuses.
unfoldable pub is_foreign_content : Bytes → Bool
is_foreign_content key =
    not (bytes_eq key site_logo_url) && not (is_slot key) && not (starts_with (bytes "site_") key)

unfoldable pub is_foreign_token : Bytes → Bool
is_foreign_token key = not (is_token key) && not (starts_with (bytes "site_") key)

-- The two loops over settings, which differ in the test.
unfoldable pub foreign_key_in : (Bytes → Bool) → KeyValueTable → Bytes
foreign_key_in is_foreign [] = []
foreign_key_in is_foreign ((key, value) ∷ settings) =
    let rest = foreign_key_in is_foreign settings in
    if is_foreign key then quoted key (bytes " is not a theme setting.") else rest

-- The first text that is not empty: the early returns, one after the other.
abbrev pub or_else : Bytes → Bytes → Bytes
or_else [] later = later
or_else (c ∷ reason) later = c ∷ reason

unfoldable pub find_fatal_bundle_problem : ThemeBundle → Bytes
unfolding asset_problem total_bytes foreign_key_in is_foreign_content is_foreign_token
find_fatal_bundle_problem bundle =
    if ltb max_bundle_assets (length bundle.assets)
    then bytes "That theme file has more files in it than we can accept."
    else or_else (asset_problem bundle.assets) (
        if ltb max_bundle_total_bytes (total_bytes bundle.assets)
        then bytes "That theme file's contents add up to more than we can accept."
        else if not (is_empty (find_case_insensitive_duplicate (names_of bundle.assets)))
        then bytes "Two files in that theme are both called \""
          ++ (find_case_insensitive_duplicate (names_of bundle.assets) ++ bytes "\".")
        else or_else (foreign_key_in is_foreign_content bundle.content)
            (foreign_key_in is_foreign_token bundle.tokens))
