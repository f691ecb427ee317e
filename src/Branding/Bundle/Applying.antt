-- ===== src/Branding/Bundle/Applying.antt =====
-- What `ImportThemeBundleJson` of theme_bundle_import.cpp writes of a pruned bundle: its settings and its images.
use server_components.Common.{
  Bool, ◌&&◌, not, none, some, List, [], ◌∷◌, ◌++◌, if◌then◌else◌, map, Bytes, bytes, is_empty,
}
use server_components.Data.Metadata.{KeyValueTable, find_value}
use server_components.Branding.SiteValues.{normalize_line_endings}
use server_components.Branding.BundleAssets.{is_bundle_asset_reference, image_type_from_magic_bytes}
use server_components.Branding.Fonts.{font_format_from_magic_bytes}
use server_components.Branding.ThemeTokens.{ThemeToken, site_theme_tokens}
use server_components.Branding.Bundle.{
  ContentSlot, ThemeBundle, site_content_slots, site_logo_url, is_url_slot,
}

abbrev pub theme_bundle_asset_url_prefix : Bytes
theme_bundle_asset_url_prefix = bytes "/api/site_asset/"

-- The value that is stored: a file of the bundle becomes the route that serves it.
unfoldable pub stored_value : Bytes → Bytes → Bytes
stored_value key value =
    let normalized = normalize_line_endings value in
    if not (is_empty normalized) && is_url_slot key && is_bundle_asset_reference normalized
    then theme_bundle_asset_url_prefix ++ normalized
    else normalized

-- The loop over the keys, with what is stored for a value that the bundle has. A key that the bundle leaves out is
-- skipped by a merge and reset otherwise.
unfoldable pub writes_from :
    (Bytes → Bytes → Bytes) → Bool → KeyValueTable → List Bytes → KeyValueTable
writes_from store merge settings [] = []
writes_from store merge settings (key ∷ keys) =
    let rest = writes_from store merge settings keys in
    elim (find_value key settings) [
      | some value ↦ (key, store key value) ∷ rest
      | none ↦ if merge then rest else (key, []) ∷ rest
    ]

abbrev pub key_of_slot : ContentSlot → Bytes
key_of_slot slot = slot.key

abbrev pub key_of_token : ThemeToken → Bytes
key_of_token token = token.key

unfoldable pub content_writes : ThemeBundle → Bool → KeyValueTable
unfolding stored_value writes_from site_content_slots
content_writes bundle merge =
    writes_from stored_value merge bundle.content
      (site_logo_url ∷ map key_of_slot site_content_slots)

unfoldable pub token_writes : ThemeBundle → Bool → KeyValueTable
unfolding writes_from site_theme_tokens
token_writes bundle merge =
    writes_from (λ key value. value) merge bundle.tokens (map key_of_token site_theme_tokens)

unfoldable pub secret_writes : ThemeBundle → Bool → KeyValueTable
unfolding content_writes token_writes
secret_writes bundle merge = content_writes bundle merge ++ token_writes bundle merge

-- The assets that are put into the table: everything that is no font, with its type.
unfoldable pub placed_assets : KeyValueTable → List (Bytes × Bytes × Bytes)
placed_assets [] = []
placed_assets ((name, contents) ∷ assets) =
    let rest = placed_assets assets in
    if is_empty (font_format_from_magic_bytes contents)
    then (name, image_type_from_magic_bytes contents, contents) ∷ rest
    else rest
