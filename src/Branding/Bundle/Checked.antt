-- ===== src/Branding/Bundle/Checked.antt =====
-- What the settings that an import writes have been checked for.
use server_components.Common.{
  ℕ, ◌≡◌, ◌⊎◌, refl, subst, Bool, true, false, ◌&&◌, inl, inr, some, List, [], ◌∷◌, ◌++◌, map,
  arith, All, All-append, Bytes, bytes, bytes_eq, bytes_eq_iff, Bool-cases, Option-cases,
}
use server_components.Data.Metadata.{KeyValueTable, find_value}
use server_components.Branding.SiteValues.{SlotType, validate_slot_value, normalize_line_endings}
use server_components.Branding.BundleAssets.{is_valid_bundle_asset_name, is_bundle_asset_reference}
use server_components.Branding.ThemeTokens.{
  ThemeToken, site_theme_tokens, is_valid_theme_token_value,
}
use server_components.Branding.Bundle.{
  ContentSlot, ThemeBundle, Verdict, kept, unknown, dropped, has_asset, site_logo_url,
  site_content_slots, is_url_slot, is_url, find_content_slot, find_theme_token, judge_content,
  judge_token, prune_settings, unless_reason,
}
use server_components.Branding.Bundle.Pruning.{prune_unusable_bundle_items}
use server_components.Branding.Bundle.Applying.{
  key_of_slot, key_of_token, stored_value, writes_from, content_writes, token_writes, secret_writes,
  theme_bundle_asset_url_prefix,
}
use server_components.Branding.Bundle.Registered.{
  IsSiteSetting, logo-IsSiteSetting, slots-IsSiteSetting, tokens-IsSiteSetting,
}
use server_components.Branding.Bundle.References.{
  normalize_name, reference-valid, is_url-url, accepted_url-no_reference,
}

-- Why a value may be stored under a key.
pub data Checked (bundle : ThemeBundle) (key value : Bytes) : Type 0 where
  reset : value ≡ [] → Checked bundle key value
  logo : key ≡ site_logo_url → Checked bundle key value
  text :
      (slot : ContentSlot)
      → find_content_slot key ≡ some slot
      → validate_slot_value slot.type value ≡ []
      → Checked bundle key value
  asset :
      (name : Bytes)
      → is_url_slot key ≡ true
      → is_valid_bundle_asset_name name ≡ true
      → has_asset bundle name ≡ true
      → value ≡ theme_bundle_asset_url_prefix ++ name
      → Checked bundle key value
  token :
      (theme_token : ThemeToken)
      → find_theme_token key ≡ some theme_token
      → is_valid_theme_token_value theme_token.type value ≡ true
      → Checked bundle key value

Verdict-cases :
    (verdict : Verdict)
    → (verdict ≡ kept) ⊎ (verdict ≡ unknown) ⊎ ((reason : Bytes) × (verdict ≡ dropped reason))
Verdict-cases kept = inl refl
Verdict-cases unknown = inr (inl refl)
Verdict-cases (dropped reason) = inr (inr (reason, refl))

-- A value that is left was kept.
prune_settings-kept :
    (area : Bytes) (judge : Bytes → Bytes → Verdict) (key value : Bytes) (settings : KeyValueTable)
    → find_value key (prune_settings area judge settings).0 ≡ some value
    → judge key value ≡ kept
unfolding prune_settings find_value
prune_settings-kept area judge key value [] found = cc
prune_settings-kept area judge key value ((k, v) ∷ settings) found =
    elim (Verdict-cases (judge k v)) [
      | inl is_kept ↦ elim (Bool-cases (bytes_eq k key)) [
        | inl same ↦
            let key_is : k ≡ key = (bytes_eq_iff k key).0 same in
            let value_is : v ≡ value = ground arith in rw (← key_is, ← value_is) is_kept
        | inr other ↦ prune_settings-kept area judge key value settings (ground arith)
      ]
      | inr (inl is_unknown) ↦ prune_settings-kept area judge key value settings (ground arith)
      | inr (inr (reason, is_dropped)) ↦
          prune_settings-kept area judge key value settings (ground arith)
    ]

unless_reason-kept : (reason : Bytes) → unless_reason reason ≡ kept → reason ≡ []
unless_reason-kept [] h = refl
unless_reason-kept (c ∷ reason) h = cc

-- A text of a slot that passed the check of its slot.
stored-text :
    (bundle : ThemeBundle) (key value : Bytes) (slot : ContentSlot)
    → bytes_eq key site_logo_url ≡ false
    → find_content_slot key ≡ some slot
    → validate_slot_value slot.type (normalize_line_endings value) ≡ []
    → Checked bundle key (stored_value key value)
unfolding stored_value is_url_slot
stored-text bundle key value slot no_logo found accepted =
    let normalized = normalize_line_endings value in
    elim (Bool-cases (is_url slot.type)) [
      | inl address ↦
          let of_url =
            subst (λ (type : SlotType). validate_slot_value type normalized ≡ [])
              (is_url-url slot.type address) accepted in
          let plain = accepted_url-no_reference normalized of_url in
          text slot found (rw (no_logo, found, address) (ground (arith, plain)))
      | inr other ↦ text slot found (rw (no_logo, found, other) (ground (arith, accepted)))
    ]

-- A file of the bundle, under a key for addresses.
stored-asset :
    (bundle : ThemeBundle) (key : Bytes) (c : ℕ) (value : Bytes)
    → is_url_slot key ≡ true
    → is_bundle_asset_reference (c ∷ value) ≡ true
    → has_asset bundle (c ∷ value) ≡ true
    → Checked bundle key (stored_value key (c ∷ value))
unfolding stored_value
stored-asset bundle key c value is_address reference present =
    let valid = reference-valid (c ∷ value) reference in
    asset (c ∷ value) is_address valid present
      (rw (normalize_name (c ∷ value) valid, is_address, reference) refl)

stored-empty : (key : Bytes) → stored_value key [] ≡ []
unfolding stored_value normalize_line_endings
stored-empty key = refl

stored_content-Checked :
    (bundle : ThemeBundle) (key value : Bytes)
    → judge_content bundle key value ≡ kept
    → Checked bundle key (stored_value key value)
unfolding judge_content
stored_content-Checked bundle key [] judged = reset (stored-empty key)
stored_content-Checked bundle key (c ∷ value) judged =
    elim (Bool-cases (bytes_eq key site_logo_url)) [
      | inl is_logo ↦ logo ((bytes_eq_iff key site_logo_url).0 is_logo)
      | inr no_logo ↦ elim (Option-cases (find_content_slot key)) [
        | inl missing ↦ absurd (ground arith)
        | inr (slot, found) ↦
            elim (Bool-cases (is_url_slot key && is_bundle_asset_reference (c ∷ value))) [
              | inl file ↦
                  stored-asset bundle key c value (ground arith) (ground arith) (ground arith)
              | inr plain ↦
                  let reason = validate_slot_value slot.type (normalize_line_endings (c ∷ value)) in
                  let accepted : unless_reason reason ≡ kept = ground arith in
                  stored-text bundle key (c ∷ value) slot no_logo found
                    (unless_reason-kept reason accepted)
            ]
      ]
    ]

stored_token-Checked :
    (bundle : ThemeBundle) (key value : Bytes)
    → judge_token key value ≡ kept
    → Checked bundle key value
unfolding judge_token
stored_token-Checked bundle key [] judged = reset refl
stored_token-Checked bundle key (c ∷ value) judged = elim (Option-cases (find_theme_token key)) [
  | inl missing ↦ absurd (ground arith)
  | inr (theme_token, found) ↦ token theme_token found (ground arith)
]

-- A setting that may be written: it has a key of the site, and its value is checked.
abbrev pub IsCheckedWrite : ThemeBundle → Bytes × Bytes → Type 0
IsCheckedWrite bundle write = IsSiteSetting write.0 × Checked bundle write.0 write.1

-- What is written is checked when every value that the settings have is stored as something that is.
writes_from-Checked :
    (bundle : ThemeBundle) (store : Bytes → Bytes → Bytes) (merge : Bool) (settings : KeyValueTable)
    (keys : List Bytes)
    → All IsSiteSetting keys
    → ((key value : Bytes)
        → find_value key settings ≡ some value
        → Checked bundle key (store key value))
    → All (IsCheckedWrite bundle) (writes_from store merge settings keys)
unfolding writes_from
writes_from-Checked bundle store merge settings [] known checked = tt
writes_from-Checked bundle store merge settings (key ∷ keys) known checked =
    let rest = writes_from-Checked bundle store merge settings keys known.1 checked in
    elim (Option-cases (find_value key settings)) [
      | inr (value, found) ↦ rw (writes_from, found) ((known.0, checked key value found), rest)
      | inl missing ↦ elim (Bool-cases merge) [
        | inl merging ↦ rw (writes_from, missing, merging) rest
        | inr replacing ↦ rw (writes_from, missing, replacing) ((known.0, reset refl), rest)
      ]
    ]

-- Whatever a bundle holds, an import writes only settings that have been checked. Each is under a key that begins with
-- `site_` and is the logo's or that of a registered slot or token; no other setting is written or reset. Its value is empty, which resets it, or a text that the check of its slot accepts, or the route of a file that is in the bundle
-- and has a valid name, or a valid value of its token. The logo alone is written unchecked.
pub secret_writes-Checked :
    (bundle : ThemeBundle) (merge : Bool)
    → let pruned = (prune_unusable_bundle_items bundle).0 in
      All (IsCheckedWrite bundle) (secret_writes pruned merge)
unfolding prune_unusable_bundle_items secret_writes content_writes token_writes
secret_writes-Checked bundle merge =
    All-append (IsCheckedWrite bundle) (content_writes (prune_unusable_bundle_items bundle).0 merge)
      (token_writes (prune_unusable_bundle_items bundle).0 merge)
      (writes_from-Checked bundle stored_value merge
        (prune_settings (bytes "content") (judge_content bundle) bundle.content).0
        (site_logo_url ∷ map key_of_slot site_content_slots)
        (logo-IsSiteSetting, slots-IsSiteSetting)
        (λ key value found. stored_content-Checked bundle key value (
          prune_settings-kept (bytes "content") (judge_content bundle) key value bundle.content
            found)))
      (writes_from-Checked bundle (λ key value. value) merge
        (prune_settings (bytes "tokens") judge_token bundle.tokens).0
        (map key_of_token site_theme_tokens) tokens-IsSiteSetting
        (λ key value found.
          stored_token-Checked bundle key value
            (prune_settings-kept (bytes "tokens") judge_token key value bundle.tokens found)))
