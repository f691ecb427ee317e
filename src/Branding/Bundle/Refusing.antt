-- ===== src/Branding/Bundle/Refusing.antt =====
-- Which bundles are refused as a whole.
use server_components.Common.{◌≤◌, ◌≡◌, false, List, [], ◌∷◌, length, any, All, Bytes, bytes_eq}
use server_components.Branding.BundleAssets.{to_lower}
use server_components.Branding.Bundle.{ThemeBundle}
use server_components.Branding.Bundle.Fatal.{names_of}
use server_components.Branding.Bundle.Files.{AreAcceptableAssets, total_length}
use server_components.Branding.Bundle.SiteKeys.{AreSiteKeys}

-- No two names are equal but for the case of their letters.
abbrev pub DifferIn : List Bytes → Bytes → Type 0
DifferIn seen name = any (λ s. bytes_eq s (to_lower name)) seen ≡ false

abbrev pub AreDistinct : List Bytes → Type 0
AreDistinct [] = Unit
AreDistinct (name ∷ names) =
    All (λ other. bytes_eq (to_lower name) (to_lower other) ≡ false) names × AreDistinct names

-- What a bundle has to be not to be refused as a whole.
abbrev pub IsAcceptable : ThemeBundle → Type 0
IsAcceptable bundle =
    (length bundle.assets ≤ 64)
    × AreAcceptableAssets bundle.assets
    × (total_length bundle.assets ≤ 67108864)
    × AreDistinct (names_of bundle.assets)
    × AreSiteKeys bundle.content
    × AreSiteKeys bundle.tokens
