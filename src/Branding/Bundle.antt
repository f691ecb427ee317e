-- ===== src/Branding/Bundle.antt =====
-- components/platform/business_logic/branding/theme_bundle.h and the checks of theme_bundle_import.cpp: a theme as it is
-- uploaded, and what becomes of each of its settings. A `std::map` is a list of keys and
-- values in the order of the keys, each key once. The sections of the applications are not modelled.
pub mod Fatal
pub mod Services
pub mod SiteKeys
pub mod Pruning
pub mod Applying
pub mod Registered
pub mod Checked
pub mod References
pub mod Families
pub mod Names
pub mod Kinds
pub mod Files
pub mod Refusing
mod Tests
use server_components.Common.Int.{ℤ, pos, leb_ℤ, ltb_ℤ}
use server_components.Common.{
  ℕ, ◌+◌, Bool, true, false, ◌&&◌, ◌||◌, not, Option, none, some, List, [], ◌∷◌, ◌++◌,
  if◌then◌else◌, leb, ltb, ◌==◌, length, any, all, map, keep, Bytes, bytes, is_empty, bytes_eq,
  starts_with,
}
use server_components.Data.Metadata.{KeyValueTable, find_value}
use server_components.Foundation.Numbers.{string_from_int}
use server_components.Branding.SiteValues.{
  SlotType, line, lines, markdown, url, validate_slot_value, normalize_line_endings,
  is_valid_font_family_list,
}
use server_components.Branding.BundleAssets.{
  is_valid_bundle_asset_name, is_bundle_asset_reference, find_case_insensitive_duplicate,
  image_type_from_magic_bytes, max_bundle_assets, max_bundle_asset_bytes, max_bundle_total_bytes,
}
use server_components.Branding.Fonts.{
  font_format_from_magic_bytes, is_valid_font_source_url, is_valid_font_family_name,
  is_valid_font_spec,
}
use server_components.Branding.ThemeTokens.{
  ThemeToken, site_theme_tokens, is_valid_theme_token_value,
}

pub record BundleFontPreconnect : Type 0 where
  pub url : Bytes
  pub crossorigin : Bool

pub record BundleFontSource : Type 0 where
  pub source_key : Bytes
  pub display_name : Bytes
  pub base_url : Bytes
  pub query_suffix : Bytes
  pub preconnects : List BundleFontPreconnect

pub record BundleFontFace : Type 0 where
  pub weight : ℤ
  pub style : Bytes
  pub file : Bytes

pub record BundleFontFamily : Type 0 where
  pub family : Bytes
  pub fallback : Bytes
  pub source_kind : Bytes
  pub source_key : Bytes
  pub spec : Bytes
  pub faces : List BundleFontFace

pub record ThemeBundle : Type 0 where
  pub content : KeyValueTable
  pub tokens : KeyValueTable
  pub sources : List BundleFontSource
  pub families : List BundleFontFamily
  pub assets : KeyValueTable

unfoldable pub has_asset : ThemeBundle → Bytes → Bool
has_asset bundle file_name = elim (find_value file_name bundle.assets) [
  | some contents ↦ true
  | none ↦ false
]

pub record ContentSlot : Type 0 where
  pub key : Bytes
  pub type : SlotType

abbrev slot : Bytes → SlotType → ContentSlot
slot key type = record { key = key; type = type }

unfoldable pub site_content_slots : List ContentSlot
site_content_slots =
    slot (bytes "site_logo_alt") line
    ∷ slot (bytes "site_browser_title") line
    ∷ slot (bytes "site_favicon_url") url
    ∷ slot (bytes "site_hero_headline") line
    ∷ slot (bytes "site_hero_subline") line
    ∷ slot (bytes "site_hero_image_url") url
    ∷ slot (bytes "site_tagline_lines") lines
    ∷ slot (bytes "site_tagline_image_url") url
    ∷ slot (bytes "site_address_lines") lines
    ∷ slot (bytes "site_contact_email") line
    ∷ slot (bytes "site_about_heading") line
    ∷ slot (bytes "site_about_markdown") markdown
    ∷ slot (bytes "site_start_intro") line
    ∷ slot (bytes "site_membership_blurb") line
    ∷ slot (bytes "site_social_links") lines
    ∷ []

abbrev pub site_logo_url : Bytes
site_logo_url = bytes "site_logo_url"

-- A problem: its area, its item and the reason.
abbrev pub BundleProblem : Type 0
BundleProblem = Bytes × Bytes × Bytes

unfoldable pub find_slot_in : Bytes → List ContentSlot → Option ContentSlot
find_slot_in key [] = none
find_slot_in key (slot ∷ slots) =
    if bytes_eq key slot.key then some slot else find_slot_in key slots

unfoldable pub find_content_slot : Bytes → Option ContentSlot
unfolding find_slot_in site_content_slots
find_content_slot key = find_slot_in key site_content_slots

unfoldable pub find_token_in : Bytes → List ThemeToken → Option ThemeToken
find_token_in key [] = none
find_token_in key (token ∷ tokens) =
    if bytes_eq key token.key then some token else find_token_in key tokens

unfoldable pub find_theme_token : Bytes → Option ThemeToken
unfolding find_token_in
find_theme_token key = find_token_in key site_theme_tokens

abbrev pub is_url : SlotType → Bool
is_url url = true
is_url type = false

unfoldable pub is_url_slot : Bytes → Bool
unfolding find_content_slot
is_url_slot key =
    if bytes_eq key site_logo_url
    then true
    else elim (find_content_slot key) [ some slot ↦ is_url slot.type | none ↦ false ]

-- Whether `FindContentSlot` and `FindThemeToken` find something.
abbrev pub is_slot : Bytes → Bool
is_slot key = elim (find_content_slot key) [ some slot ↦ true | none ↦ false ]

abbrev pub is_token : Bytes → Bool
is_token key = elim (find_theme_token key) [ some token ↦ true | none ↦ false ]

abbrev pub quoted : Bytes → Bytes → Bytes
quoted name text = bytes "\"" ++ (name ++ (bytes "\"" ++ text))

-- What becomes of an item: it is kept, it is reported as unknown, or it is dropped with a reason.
pub data Verdict : Type 0 where
  kept unknown : Verdict
  dropped : Bytes → Verdict

-- A reason, if there is one.
abbrev pub unless_reason : Bytes → Verdict
unless_reason [] = kept
unless_reason (c ∷ reason) = dropped (c ∷ reason)

unfoldable pub judge_content : ThemeBundle → Bytes → Bytes → Verdict
unfolding has_asset is_url_slot
judge_content bundle key value =
    if not (bytes_eq key site_logo_url) && not (is_slot key)
    then unknown
    else if is_empty value
    then kept
    else if is_url_slot key && is_bundle_asset_reference value
    then if has_asset bundle value
      then kept
      else dropped (bytes "points at " ++ quoted value (bytes ", which is not in that theme file."))
    else elim (find_content_slot key) [
      | some slot ↦ unless_reason (validate_slot_value slot.type (normalize_line_endings value))
      | none ↦ kept
    ]

unfoldable pub judge_token : Bytes → Bytes → Verdict
judge_token key value = elim (find_theme_token key) [
  | none ↦ unknown
  | some token ↦
      if is_empty value
      then kept
      else if not (is_valid_theme_token_value token.type value)
      then dropped (quoted value (bytes " is not a valid value for that setting."))
      else kept
]

-- What a loop over settings keeps, the keys that it does not know, and the problems.
abbrev pub Pruned : Type 0
Pruned = KeyValueTable × List Bytes × List BundleProblem

abbrev pub file_under : Bytes → Bytes × Bytes → Verdict → Pruned → Pruned
file_under area item kept (items, unknown_keys, problems) = (item ∷ items, unknown_keys, problems)
file_under area (key, value) unknown (items, unknown_keys, problems) =
    (items, key ∷ unknown_keys, problems)
file_under area (key, value) (dropped reason) (items, unknown_keys, problems) =
    (items, unknown_keys, (area, key, reason) ∷ problems)

unfoldable pub prune_settings : Bytes → (Bytes → Bytes → Verdict) → KeyValueTable → Pruned
prune_settings area judge [] = ([], [], [])
prune_settings area judge ((key, value) ∷ settings) =
    file_under area (key, value) (judge key value) (prune_settings area judge settings)
