-- ===== src/Branding/SiteValues/Tests.antt =====
-- The validators at small values, and the theorems at them.
use server_components.Common.{
  ◌≡◌, refl, ◌↔◌, ◌⊎◌, true, false, [], ◌∷◌, bytes, bytes_eq, starts_with,
}
use server_components.Branding.SiteValues.{
  line, url, is_valid_hex_color, is_root_relative, is_control_byte, is_valid_site_url,
  is_valid_css_length, is_css_unit, skip_digits, skip_fraction, is_decimal_digit,
  is_valid_font_family_list, validate_slot_value, bad_url_message, multi_line_message, is_hex_digit,
}
use server_components.Branding.SiteValues.Slots.{IsAllowed, validate_slot_value_iff}

validators :
    (is_valid_hex_color (bytes "#12aBcF") ≡ true)
    × (is_valid_hex_color (bytes "#123") ≡ false)
    × (is_valid_site_url (bytes "/about") ≡ true)
    × (is_valid_site_url (bytes "//evil.example") ≡ false)
    × (is_valid_site_url (bytes "https://") ≡ false)
    × (is_valid_css_length (bytes "0.5rem") ≡ true)
    × (is_valid_css_length (bytes ".px") ≡ false)
    × (is_valid_css_length (bytes "calc(1px)") ≡ false)
    × (is_valid_font_family_list (bytes "Roboto, sans-serif") ≡ true)
    × (validate_slot_value url (bytes "//x") ≡ bad_url_message)
    × (validate_slot_value line (97 ∷ 10 ∷ []) ≡ multi_line_message)
unfolding is_valid_hex_color is_hex_digit is_valid_site_url is_root_relative starts_with
    is_valid_css_length skip_digits skip_fraction is_decimal_digit is_css_unit bytes_eq
    is_valid_font_family_list validate_slot_value is_control_byte
validators = (refl, refl, refl, refl, refl, refl, refl, refl, refl, refl, refl)

validate_slot_value_iff_example :
    (validate_slot_value line (bytes "Yoga") ≡ [])
    ↔ (bytes "Yoga" ≡ []) ⊎ IsAllowed line (bytes "Yoga")
validate_slot_value_iff_example = validate_slot_value_iff line (bytes "Yoga")
