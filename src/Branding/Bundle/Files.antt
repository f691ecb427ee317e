-- ===== src/Branding/Bundle/Files.antt =====
-- Which files of a bundle are accepted.
use server_components.Common.{
  ℕ, ◌+◌, ◌≤◌, ◌≡◌, ◌⊎◌, ◌↔◌, refl, Bool, true, false, inl, inr, not, ◌&&◌, ◌||◌, [], ◌∷◌,
  if◌then◌else◌, ltb, length, arith, Bytes, is_empty, Bool-cases,
}
use server_components.Data.Metadata.{KeyValueTable}
use server_components.Branding.BundleAssets.{
  is_valid_bundle_asset_name, image_type_from_magic_bytes, max_bundle_asset_bytes,
}
use server_components.Branding.Fonts.{font_format_from_magic_bytes}
use server_components.Branding.Bundle.Fatal.{asset_problem, total_bytes}
use server_components.Branding.Bundle.Names.{IsAssetName, is_valid_bundle_asset_name_iff}
use server_components.Branding.Bundle.Kinds.{
  font_marks, image_marks, has_mark, is_webp, shows_svg, OpensDrawing, font_format_lem,
  image_type_lem,
}

-- A file with a valid name, of 8 MiB at most, that has the marks of a font or an image, or is a drawing whose element is
-- near its start.
abbrev pub IsAcceptableAsset : Bytes → Bytes → Type 0
IsAcceptableAsset name contents =
    IsAssetName name
    × (length contents ≤ 8388608)
    × (((has_mark font_marks contents || has_mark image_marks contents || is_webp contents) ≡ true)
        ⊎ (OpensDrawing contents × (shows_svg contents ≡ true)))

abbrev pub AreAcceptableAssets : KeyValueTable → Type 0
AreAcceptableAssets [] = Unit
AreAcceptableAssets ((name, contents) ∷ assets) =
    IsAcceptableAsset name contents × AreAcceptableAssets assets

-- A file with `<svg` near its start is a drawing, and not a page that has one in it.
abbrev pub ShowsNoPage : Bytes → Type 0
ShowsNoPage contents = shows_svg contents ≡ true → OpensDrawing contents

abbrev pub ShowNoPage : KeyValueTable → Type 0
ShowNoPage [] = Unit
ShowNoPage ((name, contents) ∷ assets) = ShowsNoPage contents × ShowNoPage assets

is_known_iff :
    (contents : Bytes)
    → ShowsNoPage contents
    → ((is_empty (font_format_from_magic_bytes contents)
          && is_empty (image_type_from_magic_bytes contents))
        ≡ false)
      ↔ (((has_mark font_marks contents || has_mark image_marks contents || is_webp contents)
            ≡ true)
          ⊎ (OpensDrawing contents × (shows_svg contents ≡ true)))
is_known_iff contents no_page = elim (Bool-cases (shows_svg contents)) [
  | inl shown ↦
      rw (font_format_lem contents, image_type_lem contents, shown)
        (λ h. inr (no_page shown, refl), λ h. ground arith)
  | inr hidden ↦
      rw (font_format_lem contents, image_type_lem contents, hidden)
        (λ h. inl (ground arith), λ h. ground arith)
]

three_reasons :
    (a b c : Bool) (first : ℕ) (r s t rest : Bytes)
    → ((if a then first ∷ r else if b then first ∷ s else if c then first ∷ t else rest) ≡ [])
      ↔ (a ≡ false) × (b ≡ false) × (c ≡ false) × (rest ≡ [])
three_reasons true b c first r s t rest = (λ h. cc, λ h. cc)
three_reasons false true c first r s t rest = (λ h. cc, λ h. cc)
three_reasons false false true first r s t rest = (λ h. cc, λ h. cc)
three_reasons false false false first r s t rest = (λ h. (refl, refl, refl, h), λ h. h.3)

accepted_of : {b : Bool} → not b ≡ false → b ≡ true
accepted_of {b = true} h = refl
accepted_of {b = false} h = cc

ltb-false : {a b : ℕ} → ltb a b ≡ false → b ≤ a
ltb-false h = ground arith

at_most : {a b : ℕ} → b ≤ a → ltb a b ≡ false
at_most h = ground arith

pub asset_problem_iff :
    (assets : KeyValueTable)
    → ShowNoPage assets
    → (asset_problem assets ≡ []) ↔ AreAcceptableAssets assets
unfolding asset_problem
asset_problem_iff [] no_page = (λ _. tt, λ _. refl)
asset_problem_iff ((name, contents) ∷ assets) (no_page, others) =
    let (sound, complete) = asset_problem_iff assets others in
    let (known, is_known) = is_known_iff contents no_page in
    let (named, valid_name) = is_valid_bundle_asset_name_iff name in
    let (passes, ends) =
      three_reasons (not (is_valid_bundle_asset_name name))
        (ltb max_bundle_asset_bytes (length contents))
        (is_empty (font_format_from_magic_bytes contents)
          && is_empty (image_type_from_magic_bytes contents))
        b'"' _ _ _ (asset_problem assets) in
    (
      λ h.
          let (valid, small, recognised, nothing_behind) = passes h in
          ((named (accepted_of valid), ltb-false small, known recognised), sound nothing_behind),
      λ ((valid, small, kind), later).
          ends (rw (valid_name valid) refl, at_most small, is_known kind, complete later),
    )

abbrev pub total_length : KeyValueTable → ℕ
total_length [] = 0
total_length ((name, contents) ∷ assets) = length contents + total_length assets

pub total_bytes-total_length : (assets : KeyValueTable) → total_bytes assets ≡ total_length assets
unfolding total_bytes
total_bytes-total_length [] = refl
total_bytes-total_length ((name, contents) ∷ assets) = rw (total_bytes-total_length assets)
