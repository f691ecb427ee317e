-- ===== src/Branding/Bundle/References.antt =====
-- Values that name a file of the bundle, and addresses, which do not.
use server_components.Common.{
  ℕ, ◌≡◌, ◌≢◌, refl, subst, true, false, ◌&&◌, not, inl, inr, [], ◌∷◌, all, all_iff, arith,
  All-weaken, Bytes, bytes, is_empty, starts_with, starts_with_split, Without, Bool-cases,
}
use server_components.Foundation.Text.{find_bytes}
use server_components.Branding.SiteValues.{
  SlotType, line, lines, markdown, url, color, validate_slot_value, normalize_line_endings,
  is_valid_site_url, is_root_relative,
}
use server_components.Branding.SiteValues.Slots.{
  validate_slot_value_iff, normalize_line_endings_lem,
}
use server_components.Branding.SiteValues.Shapes.{is_valid_site_url_iff}
use server_components.Branding.BundleAssets.{
  contains, is_ascii_alnum, is_asset_name_char, is_valid_bundle_asset_name, is_external_url_value,
  is_bundle_asset_reference,
}
use server_components.Branding.Bundle.{is_url}

not_return : (c : ℕ) → is_asset_name_char c ≡ true → c ≢ 13
unfolding is_asset_name_char is_ascii_alnum
not_return c char = ground arith

-- A name of a file holds no carriage return.
pub valid_name-Without : (name : Bytes) → is_valid_bundle_asset_name name ≡ true → Without 13 name
unfolding is_valid_bundle_asset_name
valid_name-Without [] valid = tt
valid_name-Without (c ∷ name) valid =
    let chars : all is_asset_name_char (c ∷ name) ≡ true = ground arith in
    All-weaken (λ d. is_asset_name_char d ≡ true) (λ d. d ≢ 13) not_return (c ∷ name)
      ((all_iff is_asset_name_char (c ∷ name)).0 chars)

pub normalize_name :
    (name : Bytes) → is_valid_bundle_asset_name name ≡ true → normalize_line_endings name ≡ name
normalize_name name valid =
    (normalize_line_endings_lem name [] 0 (valid_name-Without name valid) (omega arith)).3

pub reference-valid :
    (value : Bytes)
    → is_bundle_asset_reference value ≡ true
    → is_valid_bundle_asset_name value ≡ true
unfolding is_bundle_asset_reference
reference-valid value reference = ground arith

external :
    (value : Bytes)
    → starts_with (bytes "http://") value ≡ true
    → is_external_url_value value ≡ true
unfolding is_external_url_value contains find_bytes starts_with
external value http =
    subst (λ (v : Bytes). is_external_url_value v ≡ true)
      (starts_with_split (bytes "http://") value http) refl

external_s :
    (value : Bytes)
    → starts_with (bytes "https://") value ≡ true
    → is_external_url_value value ≡ true
unfolding is_external_url_value contains find_bytes starts_with
external_s value https =
    subst (λ (v : Bytes). is_external_url_value v ≡ true)
      (starts_with_split (bytes "https://") value https) refl

slash_no_name :
    (value : Bytes) → is_root_relative value ≡ true → is_valid_bundle_asset_name value ≡ false
unfolding is_root_relative is_valid_bundle_asset_name is_ascii_alnum
slash_no_name [] root = refl
slash_no_name (c ∷ []) root = ground arith
slash_no_name (c ∷ d ∷ value) root = ground arith

-- An address that passes the check of addresses does not name a file of the bundle.
url_no_reference :
    (c : ℕ) (value : Bytes)
    → is_valid_site_url (c ∷ value) ≡ true
    → is_bundle_asset_reference (c ∷ value) ≡ false
unfolding is_valid_site_url is_bundle_asset_reference
url_no_reference c value valid = elim (Bool-cases (starts_with (bytes "http://") (c ∷ value))) [
  | inl http ↦ rw (external (c ∷ value) http) refl
  | inr no_http ↦ elim (Bool-cases (starts_with (bytes "https://") (c ∷ value))) [
    | inl https ↦ rw (external_s (c ∷ value) https) refl
    | inr no_https ↦
        let root : is_root_relative (c ∷ value) ≡ true = ground arith in
        let no_name = slash_no_name (c ∷ value) root in ground arith
  ]
]

pub is_url-url : (type : SlotType) → is_url type ≡ true → type ≡ url
is_url-url line h = cc
is_url-url lines h = cc
is_url-url markdown h = cc
is_url-url url h = refl
is_url-url color h = cc

-- A text that a slot of addresses accepts is stored as it is.
pub accepted_url-no_reference :
    (value : Bytes)
    → validate_slot_value url value ≡ []
    → (not (is_empty value) && is_bundle_asset_reference value) ≡ false
accepted_url-no_reference [] accepted = refl
accepted_url-no_reference (c ∷ value) accepted =
    elim ((validate_slot_value_iff url (c ∷ value)).0 accepted) [
      | inl empty ↦ cc
      | inr allowed ↦ url_no_reference c value ((is_valid_site_url_iff (c ∷ value)).1 allowed)
    ]
