-- ===== src/Branding/Bundle/Tests.antt =====
-- A bundle with something of every kind, and the theorems at it.
use server_components.Common.Int.{pos}
use server_components.Common.{◌≡◌, refl, List, [], ◌∷◌, Bytes, bytes, bytes_eq, starts_with}
use server_components.Branding.Bundle.{
  BundleFontSource, BundleFontFace, BundleFontFamily, ThemeBundle, kept, judge_content, is_url_slot,
  find_content_slot, find_slot_in, site_content_slots,
}
use server_components.Branding.Fonts.{is_valid_font_source_url, has_control_or_space, breaks_out}
use server_components.Foundation.Text.{find_bytes}
use server_components.Branding.BundleAssets.{
  contains, is_ascii_alnum, is_asset_name_char, is_valid_bundle_asset_name, is_external_url_value,
  is_bundle_asset_reference,
}
use server_components.Branding.Bundle.Pruning.{
  has, insert, erase, preconnect_reason, source_reason, keys_after, prune_sources,
}
use server_components.Common.{All, true}
use server_components.Branding.Bundle.Pruning.{prune_unusable_bundle_items}
use server_components.Branding.Bundle.Applying.{secret_writes}
use server_components.Branding.Bundle.Checked.{IsCheckedWrite, secret_writes-Checked}
use server_components.Branding.Bundle.Families.{
  IsUsableFamily, prune_unusable_bundle_items-IsUsableFamily,
}

abbrev service : Bytes → BundleFontSource
service name = record {
  source_key = bytes "g";
  display_name = name;
  base_url = bytes "https://f.example/css";
  query_suffix = [];
  preconnects = [];
}

abbrev family_of : Bytes → Bytes → Bytes → List BundleFontFace → BundleFontFamily
family_of name kind spec faces = record {
  family = name;
  fallback = bytes "serif";
  source_kind = kind;
  source_key = bytes "g";
  spec = spec;
  faces = faces;
}

abbrev face : Bytes → BundleFontFace
face file = record { weight = pos 400; style = bytes "normal"; file = file }

abbrev bundle : ThemeBundle
bundle = record {
  content =
      (bytes "site_favicon_url", bytes "logo.png")
      ∷ (bytes "site_hero_headline", bytes "Hello")
      ∷ (bytes "site_logo_url", bytes "javascript:alert(1)")
      ∷ [];
  tokens =
      (bytes "site_theme_primary", bytes "#0011ff") ∷ (bytes "site_theme_text", bytes "red") ∷ [];
  sources = service (bytes "one") ∷ [];
  families =
      family_of (bytes "Barlow") (bytes "cdn") (bytes "family=Barlow") []
      ∷ family_of (bytes "Own") (bytes "uploaded") []
          (face (bytes "own.woff2") ∷ face (bytes "none.ttf") ∷ [])
      ∷ [];
  assets =
      (bytes "logo.png", 137 ∷ 80 ∷ 78 ∷ 71 ∷ 13 ∷ 10 ∷ 26 ∷ 10 ∷ [])
      ∷ (bytes "own.woff2", bytes "wOF2....")
      ∷ [];
}

-- Of three services with one key, the second is dropped, and the third is kept again beside the first.
third_is_kept :
    (prune_sources []
      (service (bytes "one") ∷ service (bytes "two") ∷ service (bytes "three") ∷ [])).1
    ≡ service (bytes "one") ∷ service (bytes "three") ∷ []
unfolding prune_sources source_reason keys_after insert erase has preconnect_reason
    is_valid_font_source_url has_control_or_space breaks_out starts_with bytes_eq
third_is_kept = refl

-- The logo may be an address that no slot accepts.
logo_is_kept : judge_content bundle (bytes "site_logo_url") (bytes "javascript:alert(1)") ≡ kept
unfolding judge_content is_url_slot is_bundle_asset_reference is_external_url_value
    is_valid_bundle_asset_name is_asset_name_char is_ascii_alnum contains find_bytes starts_with
    find_content_slot find_slot_in site_content_slots bytes_eq
logo_is_kept = refl

secret_writes-Checked_example :
    All (IsCheckedWrite bundle) (secret_writes (prune_unusable_bundle_items bundle).0 true)
secret_writes-Checked_example = secret_writes-Checked bundle true

prune_unusable_bundle_items-IsUsableFamily_example :
    All
      (IsUsableFamily
        (prune_unusable_bundle_items bundle).0.assets
        (prune_unusable_bundle_items bundle).0.sources)
      (prune_unusable_bundle_items bundle).0.families
prune_unusable_bundle_items-IsUsableFamily_example =
    prune_unusable_bundle_items-IsUsableFamily bundle

-- The bundle with a drawing more.
abbrev drawn : ThemeBundle
drawn = record bundle {
  assets = (bytes "drawing.svg", bytes "<?xml?>\n<svg></svg>") ∷ bundle.assets;
}
