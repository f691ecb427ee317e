-- ===== src/Branding/BundleAssets/Tests.antt =====
-- Names and types of some files.
use server_components.Common.{◌≡◌, All, refl, true, bytes, starts_with, trim_back}
use server_components.Foundation.Text.{find_bytes}
use server_components.Branding.BundleAssets.{
  contains, is_ascii_alnum, image_type_from_magic_bytes, sanitize_asset_stem, stem_from, to_lower,
}
use server_components.Common.{arith, true, ◌∷◌, ◌++◌, Bytes}
use server_components.Branding.BundleAssets.{is_valid_bundle_asset_name, make_asset_name}
use server_components.Branding.BundleAssets.Naming.{make_asset_name-valid}

-- A page is taken for an image when it has a drawing near its start.
page_is_image : image_type_from_magic_bytes (bytes "<html><body><svg/><script>") ≡ bytes "svg"
unfolding image_type_from_magic_bytes contains find_bytes starts_with
page_is_image = refl

sanitized : sanitize_asset_stem (bytes " Sunrise  Studio!") ≡ bytes "sunrise-studio"
unfolding sanitize_asset_stem stem_from to_lower is_ascii_alnum trim_back
sanitized = refl

alnum_png : All (λ c. is_ascii_alnum c ≡ true) (bytes "png")
unfolding is_ascii_alnum
alnum_png = (refl, (refl, (refl, tt)))

make_asset_name-valid_example :
    (is_valid_bundle_asset_name (make_asset_name (bytes " Sunrise  Studio!") (bytes "png")) ≡ true)
    × ((made : Bytes) × (make_asset_name (bytes " Sunrise  Studio!") (bytes "png")
          ≡ made ++ b'.' ∷ bytes "png"))
make_asset_name-valid_example =
    make_asset_name-valid (bytes " Sunrise  Studio!") (bytes "png") alnum_png (omega arith)
      (omega arith)
