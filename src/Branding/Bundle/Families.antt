-- ===== src/Branding/Bundle/Families.antt =====
-- The font families that pruning leaves.
use server_components.Common.Int.{pos, ltb_ℤ}
use server_components.Common.{
  ℕ, ◌≡◌, refl, true, false, ◌||◌, not, inl, inr, some, List, [], ◌∷◌, ◌++◌, arith, All, Bytes,
  bytes, is_empty, bytes_eq, Bool-cases, Option-cases,
}
use server_components.Data.Metadata.{KeyValueTable, find_value}
use server_components.Foundation.Numbers.{string_from_int}
use server_components.Branding.SiteValues.{is_valid_font_family_list}
use server_components.Branding.Fonts.{
  font_format_from_magic_bytes, is_valid_font_family_name, is_valid_font_spec,
}
use server_components.Branding.Bundle.{
  BundleFontSource, BundleFontFace, BundleFontFamily, ThemeBundle,
}
use server_components.Branding.Bundle.Pruning.{
  has, prune_sources, face_reason, prune_faces, judge_kind, judge_family, names_after,
  prune_families, prune_unusable_bundle_items,
}
use server_components.Branding.Bundle.Services.{names_source, prune_sources-names}

-- The weight is one of CSS, and the file is in the bundle and is a font.
abbrev pub IsUsableFace : KeyValueTable → BundleFontFace → Type 0
IsUsableFace assets face =
    (ltb_ℤ face.weight (pos 1) ≡ false)
    × (ltb_ℤ (pos 1000) face.weight ≡ false)
    × ((contents : Bytes) × (find_value face.file assets ≡ some contents)
        × (is_empty (font_format_from_magic_bytes contents) ≡ false))

-- Each kind of family has what it is shown from.
pub data HasSource (assets : KeyValueTable) (sources : List BundleFontSource)
    (family : BundleFontFamily) : Type 0 where
  cdn :
      bytes_eq family.source_kind (bytes "cdn") ≡ true
      → names_source family.source_key sources ≡ true
      → is_valid_font_spec family.spec ≡ true
      → HasSource assets sources family
  uploaded :
      bytes_eq family.source_kind (bytes "uploaded") ≡ true
      → is_empty family.faces ≡ false
      → All (IsUsableFace assets) family.faces
      → HasSource assets sources family
  system : bytes_eq family.source_kind (bytes "system") ≡ true → HasSource assets sources family

abbrev pub IsUsableFamily : KeyValueTable → List BundleFontSource → BundleFontFamily → Type 0
IsUsableFamily assets sources family =
    (is_valid_font_family_name family.family ≡ true)
    × (is_empty family.fallback ≡ false)
    × (is_valid_font_family_list family.fallback ≡ true)
    × HasSource assets sources family

nonempty_behind : (s : Bytes) (c : ℕ) (t : Bytes) → is_empty (s ++ c ∷ t) ≡ false
nonempty_behind [] c t = refl
nonempty_behind (d ∷ s) c t = refl

face_reason-IsUsableFace :
    (assets : KeyValueTable) (face : BundleFontFace)
    → is_empty (face_reason assets face) ≡ true
    → IsUsableFace assets face
unfolding face_reason
face_reason-IsUsableFace assets face good =
    let weight : (ltb_ℤ face.weight (pos 1) || ltb_ℤ (pos 1000) face.weight) ≡ false =
      elim (Bool-cases (ltb_ℤ face.weight (pos 1) || ltb_ℤ (pos 1000) face.weight)) [
        | inl off ↦
            let full =
              nonempty_behind (string_from_int face.weight) b' '
                (bytes "is not a usable font weight.") in
            absurd (ground arith)
        | inr fits ↦ fits
      ] in
    elim (Option-cases (find_value face.file assets)) [
      | inl missing ↦ absurd (ground arith)
      | inr (contents, found) ↦ (ground arith, ground arith, (contents, found, ground arith))
    ]

prune_faces-IsUsableFace :
    (assets : KeyValueTable) (family : Bytes) (faces : List BundleFontFace)
    → All (IsUsableFace assets) (prune_faces assets family faces).0
unfolding prune_faces
prune_faces-IsUsableFace assets family [] = tt
prune_faces-IsUsableFace assets family (face ∷ faces) =
    let rest = prune_faces-IsUsableFace assets family faces in
    elim (Bool-cases (is_empty (face_reason assets face))) [
      | inl good ↦ rw good (face_reason-IsUsableFace assets face good, rest)
      | inr bad ↦ rw bad rest
    ]

module _ (assets : KeyValueTable) (keys : List Bytes) (sources : List BundleFontSource) where
  judge_kind-HasSource :
      (family : BundleFontFamily)
      → ((key : Bytes) → has key keys ≡ true → names_source key sources ≡ true)
      → is_empty (judge_kind assets keys family).0 ≡ true
      → HasSource assets sources (judge_kind assets keys family).1
  unfolding judge_kind
  judge_kind-HasSource family named good =
      elim (Bool-cases (bytes_eq family.source_kind (bytes "cdn"))) [
        | inl is_cdn ↦
            let known : has family.source_key keys ≡ true = ground arith in
            rw is_cdn (cdn is_cdn (named family.source_key known) (ground arith))
        | inr no_cdn ↦ elim (Bool-cases (bytes_eq family.source_kind (bytes "uploaded"))) [
          | inl is_uploaded ↦
              rw (no_cdn, is_uploaded)
                (uploaded is_uploaded (ground arith)
                  (prune_faces-IsUsableFace assets family.family family.faces))
          | inr no_upload ↦ elim (Bool-cases (bytes_eq family.source_kind (bytes "system"))) [
            | inl is_system ↦ rw (no_cdn, no_upload, is_system) (system is_system)
            | inr other ↦ absurd (ground arith)
          ]
        ]
      ]

  judge_kind-same :
      (family : BundleFontFamily)
      → ((judge_kind assets keys family).1.family ≡ family.family)
        × ((judge_kind assets keys family).1.fallback ≡ family.fallback)
  unfolding judge_kind
  judge_kind-same family = elim (Bool-cases (bytes_eq family.source_kind (bytes "cdn"))) [
    | inl is_cdn ↦ rw is_cdn (refl, refl)
    | inr no_cdn ↦ elim (Bool-cases (bytes_eq family.source_kind (bytes "uploaded"))) [
      | inl is_uploaded ↦ rw (no_cdn, is_uploaded) (refl, refl)
      | inr no_upload ↦ elim (Bool-cases (bytes_eq family.source_kind (bytes "system"))) [
        | inl is_system ↦ rw (no_cdn, no_upload, is_system) (refl, refl)
        | inr other ↦ rw (no_cdn, no_upload, other) (refl, refl)
      ]
    ]
  ]

  -- The tests before the kind is looked at.
  judge_family-cases :
      (names : List Bytes) (family : BundleFontFamily)
      → is_empty (judge_family assets keys names family).0 ≡ true
      → (judge_family assets keys names family ≡ judge_kind assets keys family)
        × (is_valid_font_family_name family.family ≡ true)
        × (is_empty family.fallback ≡ false)
        × (is_valid_font_family_list family.fallback ≡ true)
  unfolding judge_family
  judge_family-cases names family good =
      elim (Bool-cases (is_valid_font_family_name family.family)) [
        | inr bad_name ↦ absurd (ground arith)
        | inl name ↦ elim (Bool-cases (has family.family names)) [
          | inl twice ↦ absurd (ground arith)
          | inr once ↦
              elim (Bool-cases
                (is_empty family.fallback || not (is_valid_font_family_list family.fallback))) [
                  | inl no_fallback ↦ absurd (ground arith)
                  | inr fallback ↦
                      (rw (name, once, fallback) refl, name, ground arith, ground arith)
                ]
        ]
      ]

  -- A family against which there is no reason is usable as it is kept.
  judge_family-IsUsableFamily :
      (names : List Bytes) (family : BundleFontFamily)
      → ((key : Bytes) → has key keys ≡ true → names_source key sources ≡ true)
      → is_empty (judge_family assets keys names family).0 ≡ true
      → IsUsableFamily assets sources (judge_family assets keys names family).1
  judge_family-IsUsableFamily names family named good =
      let (same, name, full, list) = judge_family-cases names family good in
      let (same_name, same_fallback) = judge_kind-same family in
      let kind_good : is_empty (judge_kind assets keys family).0 ≡ true = rw (← same) good in
      rw (same, same_name, same_fallback)
        (name, full, list, judge_kind-HasSource family named kind_good)

  module _ (names : List Bytes) (family : BundleFontFamily) (families : List BundleFontFamily) where
    prune_families-kept :
        is_empty (judge_family assets keys names family).0 ≡ true
        → (prune_families assets keys names (family ∷ families)).0
          ≡ (judge_family assets keys names family).1
            ∷ (prune_families assets keys
                (names_after names (judge_family assets keys names family).0 family)
                families).0
    unfolding prune_families
    prune_families-kept good = rw good refl

    prune_families-dropped :
        is_empty (judge_family assets keys names family).0 ≡ false
        → (prune_families assets keys names (family ∷ families)).0
          ≡ (prune_families assets keys
              (names_after names (judge_family assets keys names family).0 family)
              families).0
    unfolding prune_families
    prune_families-dropped bad = rw bad refl

  prune_families-IsUsableFamily :
      (names : List Bytes) (families : List BundleFontFamily)
      → ((key : Bytes) → has key keys ≡ true → names_source key sources ≡ true)
      → All (IsUsableFamily assets sources) (prune_families assets keys names families).0
  prune_families-IsUsableFamily names [] named = unfold prune_families in tt
  prune_families-IsUsableFamily names (family ∷ families) named =
      let reason = (judge_family assets keys names family).0 in
      let rest = prune_families-IsUsableFamily (names_after names reason family) families named in
      elim (Bool-cases (is_empty reason)) [
        | inl good ↦
            rw (prune_families-kept names family families good)
              (judge_family-IsUsableFamily names family named good, rest)
        | inr bad ↦ rw (prune_families-dropped names family families bad) rest
      ]

-- Whatever a bundle holds, each font family that pruning leaves has a valid name and a valid fallback, and it can be
-- shown: a family of a font service has a valid specification and its service is left too, and an uploaded family has
-- a face left, and all its faces have a file of the bundle that is a font, and a weight from 1 to 1000.
pub prune_unusable_bundle_items-IsUsableFamily :
    (bundle : ThemeBundle)
    → let pruned = (prune_unusable_bundle_items bundle).0 in
      All (IsUsableFamily pruned.assets pruned.sources) pruned.families
unfolding prune_unusable_bundle_items
prune_unusable_bundle_items-IsUsableFamily bundle =
    let keys = (prune_sources [] bundle.sources).0 in
    let sources = (prune_sources [] bundle.sources).1 in
    prune_families-IsUsableFamily bundle.assets keys sources [] bundle.families (λ key present.
      elim (prune_sources-names key [] bundle.sources present) [
        | inl named ↦ named
        | inr before ↦ absurd (unfold has in (ground arith))
      ])
