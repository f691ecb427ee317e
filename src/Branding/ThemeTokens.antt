-- ===== src/Branding/ThemeTokens.antt =====
-- components/platform/business_logic/branding/site_theme_tokens.cpp: the tokens of a theme, without the descriptions that
-- the editor shows.
use server_components.Common.{
  ℕ, ◌+◌, ◌-◌, ◌*◌, Bool, false, ◌&&◌, List, [], ◌∷◌, ◌++◌, if◌then◌else◌, leb, ltb, all, length,
  Bytes, bytes,
}
use server_components.Branding.SiteValues.{
  is_valid_hex_color, is_valid_css_length, is_valid_font_family_list, is_decimal_digit,
}

pub data ThemeTokenType : Type 0 where
  color css_length font_family weight : ThemeTokenType

pub data ThemeTokenGroup : Type 0 where
  brand surface status shell palette radius type_scale font_role : ThemeTokenGroup

pub record ThemeToken : Type 0 where
  pub key : Bytes
  pub css_variable : Bytes
  pub type : ThemeTokenType
  pub group : ThemeTokenGroup

abbrev token : Bytes → Bytes → ThemeTokenType → ThemeTokenGroup → ThemeToken
token key css_variable type group = record {
  key = key;
  css_variable = css_variable;
  type = type;
  group = group;
}

-- One step of a ramp.
abbrev ramp_step : Bytes → Bytes → ThemeToken
ramp_step name step =
    token (bytes "site_theme_palette_" ++ (name ++ (bytes "_" ++ step)))
      (bytes "--palette-" ++ (name ++ (bytes "-" ++ step))) color palette

-- `RAMP`
abbrev ramp : Bytes → List ThemeToken
ramp name =
    ramp_step name (bytes "100")
    ∷ ramp_step name (bytes "200")
    ∷ ramp_step name (bytes "300")
    ∷ ramp_step name (bytes "400")
    ∷ ramp_step name (bytes "500")
    ∷ ramp_step name (bytes "600")
    ∷ ramp_step name (bytes "700")
    ∷ []

unfoldable pub site_theme_tokens : List ThemeToken
site_theme_tokens =
    ramp (bytes "primary")
    ++ ramp (bytes "secondary")
    ++ ramp (bytes "tertiary")
    ++ ramp (bytes "quaternary")
    ++ ramp (bytes "quinary")
    ++ ramp (bytes "grey")
    ++ (token (bytes "site_theme_palette_surface_tint") (bytes "--palette-surface-tint") color
          palette
        ∷ token (bytes "site_theme_palette_surface_subtle") (bytes "--palette-surface-subtle") color
            palette
        ∷ token (bytes "site_theme_primary") (bytes "--theme-primary") color brand
        ∷ token (bytes "site_theme_on_primary") (bytes "--theme-on-primary") color brand
        ∷ token (bytes "site_theme_primary_hover") (bytes "--theme-primary-hover") color brand
        ∷ token (bytes "site_theme_accent") (bytes "--theme-accent") color brand
        ∷ token (bytes "site_theme_on_accent") (bytes "--theme-on-accent") color brand
        ∷ token (bytes "site_theme_ink") (bytes "--theme-ink") color surface
        ∷ token (bytes "site_theme_text") (bytes "--theme-text") color surface
        ∷ token (bytes "site_theme_text_muted") (bytes "--theme-text-muted") color surface
        ∷ token (bytes "site_theme_surface") (bytes "--theme-surface") color surface
        ∷ token (bytes "site_theme_surface_tint") (bytes "--theme-surface-tint") color surface
        ∷ token (bytes "site_theme_background") (bytes "--theme-background") color surface
        ∷ token (bytes "site_theme_border") (bytes "--theme-border") color surface
        ∷ token (bytes "site_theme_inverse_surface") (bytes "--theme-inverse-surface") color shell
        ∷ token (bytes "site_theme_on_inverse_surface") (bytes "--theme-on-inverse-surface") color
            shell
        ∷ token (bytes "site_theme_success") (bytes "--theme-success") color status
        ∷ token (bytes "site_theme_on_success") (bytes "--theme-on-success") color status
        ∷ token (bytes "site_theme_warn") (bytes "--theme-warn") color status
        ∷ token (bytes "site_theme_on_warn") (bytes "--theme-on-warn") color status
        ∷ token (bytes "site_theme_danger") (bytes "--theme-danger") color status
        ∷ token (bytes "site_theme_on_danger") (bytes "--theme-on-danger") color status
        ∷ token (bytes "site_theme_info") (bytes "--theme-info") color status
        ∷ token (bytes "site_theme_on_info") (bytes "--theme-on-info") color status
        ∷ token (bytes "site_theme_radius_control") (bytes "--radius-control") css_length radius
        ∷ token (bytes "site_theme_radius_panel") (bytes "--radius-panel") css_length radius
        ∷ token (bytes "site_theme_radius_card") (bytes "--radius-card") css_length radius
        ∷ token (bytes "site_theme_radius_pill") (bytes "--radius-pill") css_length radius
        ∷ token (bytes "site_theme_font_body") (bytes "--font-body") font_family font_role
        ∷ token (bytes "site_theme_font_heading") (bytes "--font-heading") font_family font_role
        ∷ token (bytes "site_theme_font_display") (bytes "--font-display") font_family font_role
        ∷ token (bytes "site_theme_text_xs") (bytes "--text-xs") css_length type_scale
        ∷ token (bytes "site_theme_text_sm") (bytes "--text-sm") css_length type_scale
        ∷ token (bytes "site_theme_text_base") (bytes "--text-base") css_length type_scale
        ∷ token (bytes "site_theme_text_lg") (bytes "--text-lg") css_length type_scale
        ∷ token (bytes "site_theme_text_xl") (bytes "--text-xl") css_length type_scale
        ∷ token (bytes "site_theme_text_2xl") (bytes "--text-2xl") css_length type_scale
        ∷ token (bytes "site_theme_weight_regular") (bytes "--weight-regular") weight type_scale
        ∷ token (bytes "site_theme_weight_medium") (bytes "--weight-medium") weight type_scale
        ∷ token (bytes "site_theme_weight_semibold") (bytes "--weight-semibold") weight type_scale
        ∷ token (bytes "site_theme_weight_bold") (bytes "--weight-bold") weight type_scale
        ∷ token (bytes "site_theme_weight_menu") (bytes "--weight-menu") weight type_scale
        ∷ token (bytes "site_theme_weight_heading") (bytes "--weight-heading") weight type_scale
        ∷ token (bytes "site_theme_weight_display") (bytes "--weight-display") weight type_scale
        ∷ [])

-- The value of a text of digits, from the value of those before.
unfoldable pub weight_from : ℕ → Bytes → ℕ
weight_from weight_so_far [] = weight_so_far
weight_from weight_so_far (c ∷ value) = weight_from (weight_so_far * 10 + (c - b'0')) value

unfoldable pub is_valid_theme_token_value : ThemeTokenType → Bytes → Bool
unfolding weight_from
is_valid_theme_token_value type [] = false
is_valid_theme_token_value color (c ∷ value) = is_valid_hex_color (c ∷ value)
is_valid_theme_token_value css_length (c ∷ value) = is_valid_css_length (c ∷ value)
is_valid_theme_token_value font_family (c ∷ value) = is_valid_font_family_list (c ∷ value)
is_valid_theme_token_value weight (c ∷ value) =
    if ltb 4 (length (c ∷ value))
    then false
    else if all is_decimal_digit (c ∷ value)
    then leb 1 (weight_from 0 (c ∷ value)) && leb (weight_from 0 (c ∷ value)) 1000
    else false

-- `LoadSiteTheme`: the values that are set and valid, by CSS variable.
unfoldable pub load_theme_from : (Bytes → Bytes) → List ThemeToken → List (Bytes × Bytes)
unfolding is_valid_theme_token_value
load_theme_from lookup_secret [] = []
load_theme_from lookup_secret (token ∷ tokens) =
    let rest = load_theme_from lookup_secret tokens in
    if is_valid_theme_token_value token.type (lookup_secret token.key)
    then (token.css_variable, lookup_secret token.key) ∷ rest
    else rest

unfoldable pub load_site_theme : (Bytes → Bytes) → List (Bytes × Bytes)
unfolding load_theme_from site_theme_tokens
load_site_theme lookup_secret = load_theme_from lookup_secret site_theme_tokens
