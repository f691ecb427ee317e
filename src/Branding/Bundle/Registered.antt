-- ===== src/Branding/Bundle/Registered.antt =====
-- The keys that an import may write, which are the registered ones.
use server_components.Common.{
  ◌≡◌, ◌⊎◌, refl, inl, inr, some, List, [], ◌∷◌, map, All, All-weaken, Bytes, bytes_eq,
  bytes_eq_refl, Bool-cases,
}
use server_components.Branding.ThemeTokens.{ThemeToken, site_theme_tokens}
use server_components.Branding.Bundle.{
  ContentSlot, site_content_slots, site_logo_url, find_slot_in, find_content_slot, find_token_in,
  find_theme_token,
}
use server_components.Branding.Bundle.Applying.{key_of_slot, key_of_token}
use server_components.Branding.Bundle.SiteKeys.{
  IsSiteKey, logo-IsSiteKey, slot-IsSiteKey, token-IsSiteKey,
}

-- The key is the logo's, or that of a registered slot or token.
abbrev pub IsRegistered : Bytes → Type 0
IsRegistered key =
    (key ≡ site_logo_url)
    ⊎ ((slot : ContentSlot) × (find_content_slot key ≡ some slot))
    ⊎ ((theme_token : ThemeToken) × (find_theme_token key ≡ some theme_token))

-- The key begins with `site_`, and is registered.
abbrev pub IsSiteSetting : Bytes → Type 0
IsSiteSetting key = IsSiteKey key × IsRegistered key

pub logo-IsSiteSetting : IsSiteSetting site_logo_url
logo-IsSiteSetting = (logo-IsSiteKey site_logo_url (bytes_eq_refl site_logo_url), inl refl)

abbrev IsSlotIn : List ContentSlot → Bytes → Type 0
IsSlotIn slots key = (slot : ContentSlot) × (find_slot_in key slots ≡ some slot)

more_slots :
    (other : ContentSlot) (slots : List ContentSlot) (key : Bytes)
    → IsSlotIn slots key
    → IsSlotIn (other ∷ slots) key
unfolding find_slot_in
more_slots other slots key (slot, found) = elim (Bool-cases (bytes_eq key other.key)) [
  | inl same ↦ (other, rw same refl)
  | inr differ ↦ (slot, rw differ found)
]

keys-IsSlotIn : (slots : List ContentSlot) → All (IsSlotIn slots) (map key_of_slot slots)
unfolding find_slot_in
keys-IsSlotIn [] = tt
keys-IsSlotIn (slot ∷ slots) = (
  (slot, rw (bytes_eq_refl slot.key) refl),
  All-weaken _ _ (more_slots slot slots) (map key_of_slot slots) (keys-IsSlotIn slots),
)

abbrev IsTokenIn : List ThemeToken → Bytes → Type 0
IsTokenIn tokens key = (theme_token : ThemeToken) × (find_token_in key tokens ≡ some theme_token)

more_tokens :
    (other : ThemeToken) (tokens : List ThemeToken) (key : Bytes)
    → IsTokenIn tokens key
    → IsTokenIn (other ∷ tokens) key
unfolding find_token_in
more_tokens other tokens key (theme_token, found) = elim (Bool-cases (bytes_eq key other.key)) [
  | inl same ↦ (other, rw same refl)
  | inr differ ↦ (theme_token, rw differ found)
]

keys-IsTokenIn : (tokens : List ThemeToken) → All (IsTokenIn tokens) (map key_of_token tokens)
unfolding find_token_in
keys-IsTokenIn [] = tt
keys-IsTokenIn (theme_token ∷ tokens) = (
  (theme_token, rw (bytes_eq_refl theme_token.key) refl),
  All-weaken _ _ (more_tokens theme_token tokens) (map key_of_token tokens) (keys-IsTokenIn tokens),
)

pub slots-IsSiteSetting : All IsSiteSetting (map key_of_slot site_content_slots)
unfolding find_content_slot
slots-IsSiteSetting =
    All-weaken (IsSlotIn site_content_slots) IsSiteSetting
      (λ key (slot, found). (slot-IsSiteKey key slot found, inr (inl (slot, found))))
      (map key_of_slot site_content_slots) (keys-IsSlotIn site_content_slots)

pub tokens-IsSiteSetting : All IsSiteSetting (map key_of_token site_theme_tokens)
unfolding find_theme_token
tokens-IsSiteSetting =
    All-weaken (IsTokenIn site_theme_tokens) IsSiteSetting
      (λ key (theme_token, found).
        (token-IsSiteKey key theme_token found, inr (inr (theme_token, found))))
      (map key_of_token site_theme_tokens) (keys-IsTokenIn site_theme_tokens)
