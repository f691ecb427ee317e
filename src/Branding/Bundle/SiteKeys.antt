-- ===== src/Branding/Bundle/SiteKeys.antt =====
-- The settings that a bundle may hold.
use server_components.Common.{
  ◌≡◌, ◌↔◌, refl, Bool, true, not, inl, inr, some, List, [], ◌∷◌, all, arith, Bytes, bytes,
  bytes_eq, bytes_eq_iff, starts_with, Bool-cases, Option-cases,
}
use server_components.Data.Metadata.{KeyValueTable}
use server_components.Branding.ThemeTokens.{ThemeToken, site_theme_tokens}
use server_components.Branding.Bundle.{
  ContentSlot, site_content_slots, site_logo_url, find_slot_in, find_content_slot, find_token_in,
  find_theme_token,
}
use server_components.Branding.Bundle.Fatal.{is_foreign_content, is_foreign_token, foreign_key_in}

-- The key is in the name space of the site.
abbrev pub IsSiteKey : Bytes → Type 0
IsSiteKey key = starts_with (bytes "site_") key ≡ true

slots_are_site_keys : all (λ slot. starts_with (bytes "site_") slot.key) site_content_slots ≡ true
unfolding site_content_slots starts_with
slots_are_site_keys = refl

tokens_are_site_keys : all (λ token. starts_with (bytes "site_") token.key) site_theme_tokens ≡ true
unfolding site_theme_tokens starts_with
tokens_are_site_keys = refl

find_slot_in-IsSiteKey :
    (key : Bytes) (slots : List ContentSlot) (slot : ContentSlot)
    → all (λ s. starts_with (bytes "site_") s.key) slots ≡ true
    → find_slot_in key slots ≡ some slot
    → IsSiteKey key
unfolding find_slot_in
find_slot_in-IsSiteKey key [] slot sites found = cc
find_slot_in-IsSiteKey key (other ∷ slots) slot sites found =
    elim (Bool-cases (bytes_eq key other.key)) [
      | inl same ↦ rw ((bytes_eq_iff key other.key).0 same) (ground arith)
      | inr differ ↦ find_slot_in-IsSiteKey key slots slot (ground arith) (ground arith)
    ]

find_token_in-IsSiteKey :
    (key : Bytes) (tokens : List ThemeToken) (token : ThemeToken)
    → all (λ t. starts_with (bytes "site_") t.key) tokens ≡ true
    → find_token_in key tokens ≡ some token
    → IsSiteKey key
unfolding find_token_in
find_token_in-IsSiteKey key [] token sites found = cc
find_token_in-IsSiteKey key (other ∷ tokens) token sites found =
    elim (Bool-cases (bytes_eq key other.key)) [
      | inl same ↦ rw ((bytes_eq_iff key other.key).0 same) (ground arith)
      | inr differ ↦ find_token_in-IsSiteKey key tokens token (ground arith) (ground arith)
    ]

pub logo-IsSiteKey : (key : Bytes) → bytes_eq key site_logo_url ≡ true → IsSiteKey key
unfolding starts_with
logo-IsSiteKey key same = rw ((bytes_eq_iff key site_logo_url).0 same) refl

pub slot-IsSiteKey :
    (key : Bytes) (slot : ContentSlot) → find_content_slot key ≡ some slot → IsSiteKey key
unfolding find_content_slot
slot-IsSiteKey key slot = find_slot_in-IsSiteKey key site_content_slots slot slots_are_site_keys

pub token-IsSiteKey :
    (key : Bytes) (token : ThemeToken) → find_theme_token key ≡ some token → IsSiteKey key
unfolding find_theme_token
token-IsSiteKey key token = find_token_in-IsSiteKey key site_theme_tokens token tokens_are_site_keys

-- A registered key is in the name space, so the other tests on it decide nothing.
pub is_foreign_content_lem :
    (key : Bytes) → is_foreign_content key ≡ not (starts_with (bytes "site_") key)
unfolding is_foreign_content
is_foreign_content_lem key = elim (Option-cases (find_content_slot key)) [
  | inr (slot, found) ↦ let site = slot-IsSiteKey key slot found in ground arith
  | inl missing ↦ elim (Bool-cases (bytes_eq key site_logo_url)) [
    | inl logo ↦ let site = logo-IsSiteKey key logo in ground arith
    | inr other ↦ ground arith
  ]
]

pub is_foreign_token_lem :
    (key : Bytes) → is_foreign_token key ≡ not (starts_with (bytes "site_") key)
unfolding is_foreign_token
is_foreign_token_lem key = elim (Option-cases (find_theme_token key)) [
  | inr (token, found) ↦ let site = token-IsSiteKey key token found in ground arith
  | inl missing ↦ ground arith
]

-- The settings whose keys are all in the name space.
abbrev pub AreSiteKeys : KeyValueTable → Type 0
AreSiteKeys [] = Unit
AreSiteKeys ((key, value) ∷ settings) = IsSiteKey key × AreSiteKeys settings

pub foreign_key_in_iff :
    (is_foreign : Bytes → Bool)
    → ((key : Bytes) → is_foreign key ≡ not (starts_with (bytes "site_") key))
    → (settings : KeyValueTable) → (foreign_key_in is_foreign settings ≡ []) ↔ AreSiteKeys settings
unfolding foreign_key_in
foreign_key_in_iff is_foreign foreign_lem [] = (λ _. tt, λ _. refl)
foreign_key_in_iff is_foreign foreign_lem ((key, value) ∷ settings) =
    let (sound, complete) = foreign_key_in_iff is_foreign foreign_lem settings in
    let foreign_is = foreign_lem key in
    (λ h. ground (arith, sound), λ (here, later). ground (arith, complete later))
