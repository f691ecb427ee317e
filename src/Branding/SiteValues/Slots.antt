-- ===== src/Branding/SiteValues/Slots.antt =====
-- The write path and the read path of a slot: what is accepted, and how a stored value is repaired.
use server_components.Common.{
  ℕ, ◌≤◌, ◌≡◌, refl, ap, ◌∙◌, ◌≢◌, ◌↔◌, ◌⊎◌, inl, inr, Bool, true, false, ◌||◌, [], ◌∷◌, ◌++◌,
  arith, ◌==◌, length, All, any, Bytes, bytes, Without,
}
use server_components.Branding.SiteValues.{
  SlotType, line, lines, markdown, url, color, max_line_bytes, max_lines_bytes, max_markdown_bytes,
  max_url_bytes, too_long_message, has_disallowed_control_byte, validate_slot_value,
  line_endings_from, normalize_line_endings, normalize_slot_value,
}
use server_components.Common.{starts_with}
use server_components.Foundation.Text.{format_string}
use server_components.Foundation.Numbers.{string_from_int}
use server_components.Branding.SiteValues.Shapes.{
  IsHexColor, is_valid_hex_color_iff, IsClean, SiteUrl, is_valid_site_url_iff,
}

-- The bytes of a text in which line feeds, or line feeds and tabs, are allowed.
abbrev pub IsText : Bool → Bool → ℕ → Type 0
IsText newline tab c = (32 ≤ c) × (c ≢ 127) ⊎ (newline ≡ true) × (c ≡ 10) ⊎ (tab ≡ true) × (c ≡ 9)

has_disallowed_control_byte_iff :
    (value : Bytes) (newline tab : Bool)
    → (has_disallowed_control_byte value newline tab ≡ false) ↔ All (IsText newline tab) value
unfolding has_disallowed_control_byte
has_disallowed_control_byte_iff [] newline tab = (λ _. tt, λ _. refl)
has_disallowed_control_byte_iff (c ∷ value) newline tab =
    let (sound, complete) = has_disallowed_control_byte_iff value newline tab in
    (λ h. (ground arith, sound (ground arith)), λ (here, later). ground (arith, complete later))

-- What each type of slot may hold, apart from the empty text.
abbrev pub IsAllowed : SlotType → Bytes → Type 0
IsAllowed line value = (length value ≤ max_line_bytes) × All (IsText false false) value
IsAllowed lines value = (length value ≤ max_lines_bytes) × All (IsText true false) value
IsAllowed markdown value = (length value ≤ max_markdown_bytes) × All (IsText true true) value
IsAllowed url value = (length value ≤ max_url_bytes) × All IsClean value × SiteUrl value
IsAllowed color value = IsHexColor value

-- A text whose bytes are all printable holds no line end.
no_line_end :
    (value : Bytes) → All (IsText false false) value → any (λ c. c == 10 || c == 13) value ≡ false
no_line_end [] h = refl
no_line_end (c ∷ value) h = ground (arith, no_line_end value h.1)

-- The message names the limit, so it is never the empty text that means "accepted".
too_long_message-texts :
    (too_long_message max_line_bytes
      ≡ bytes "Value is longer than the 1024-byte limit for this field.")
    × (too_long_message max_lines_bytes
        ≡ bytes "Value is longer than the 4096-byte limit for this field.")
    × (too_long_message max_markdown_bytes
        ≡ bytes "Value is longer than the 65536-byte limit for this field.")
    × (too_long_message max_url_bytes
        ≡ bytes "Value is longer than the 2048-byte limit for this field.")
unfolding too_long_message format_string string_from_int starts_with
too_long_message-texts = (refl, refl, refl, refl)

-- A value is accepted exactly if it is empty or what its type allows.
pub validate_slot_value_iff :
    (type : SlotType) (value : Bytes)
    → (validate_slot_value type value ≡ []) ↔ (value ≡ []) ⊎ IsAllowed type value
unfolding validate_slot_value
validate_slot_value_iff type [] = (λ _. inl refl, λ _. refl)
validate_slot_value_iff line (c ∷ value) =
    let text = too_long_message-texts.0 in
    let (sound, complete) = has_disallowed_control_byte_iff (c ∷ value) false false in
    (
      λ h. inr (ground arith, sound (ground arith)),
      elim [ inl e ↦ cc | inr (size, h) ↦ ground (arith, complete h, no_line_end (c ∷ value) h) ],
    )
validate_slot_value_iff lines (c ∷ value) =
    let text = too_long_message-texts.1 in
    let (sound, complete) = has_disallowed_control_byte_iff (c ∷ value) true false in
    (
      λ h. inr (ground arith, sound (ground arith)),
      elim [ inl e ↦ cc | inr (size, h) ↦ ground (arith, complete h) ],
    )
validate_slot_value_iff markdown (c ∷ value) =
    let text = too_long_message-texts.2 in
    let (sound, complete) = has_disallowed_control_byte_iff (c ∷ value) true true in
    (
      λ h. inr (ground arith, sound (ground arith)),
      elim [ inl e ↦ cc | inr (size, h) ↦ ground (arith, complete h) ],
    )
validate_slot_value_iff url (c ∷ value) =
    let text = too_long_message-texts.3 in
    let (sound, complete) = is_valid_site_url_iff (c ∷ value) in
    (λ h. inr (sound (ground arith)), elim [ inl e ↦ cc | inr h ↦ ground (arith, complete h) ])
validate_slot_value_iff color (c ∷ value) =
    let (sound, complete) = is_valid_hex_color_iff (c ∷ value) in
    (λ h. inr (sound (ground arith)), elim [ inl e ↦ cc | inr h ↦ ground (arith, complete h) ])

line_endings_from-Without : (b : Bool) (s : Bytes) → Without 13 (line_endings_from b s)
unfolding line_endings_from
line_endings_from-Without b [] = tt
line_endings_from-Without b (c ∷ s) = ground (arith, line_endings_from-Without (c == 13) s)

line_endings_from-fixed : (s : Bytes) → Without 13 s → line_endings_from false s ≡ s
unfolding line_endings_from
line_endings_from-fixed [] h = refl
line_endings_from-fixed (c ∷ s) (n, h) =
    let plain : (c == 13) ≡ false = ground arith in
    rw plain (ap (◌∷◌ c) (line_endings_from-fixed s h))

line_endings_from-append :
    (s t : Bytes) → Without 13 s → line_endings_from false (s ++ t) ≡ s ++ line_endings_from false t
unfolding line_endings_from
line_endings_from-append [] t h = refl
line_endings_from-append (c ∷ s) t (n, h) =
    let plain : (c == 13) ≡ false = ground arith in
    rw plain (ap (◌∷◌ c) (line_endings_from-append s t h))

-- Behind a text without carriage returns, each of the three line ends becomes one line feed: the pair
-- of carriage return and line feed, a carriage return alone, and a line feed alone.
pub normalize_line_endings_lem :
    (s t : Bytes) (c : ℕ)
    → Without 13 s
    → c ≢ 10
    → (normalize_line_endings (s ++ 13 ∷ 10 ∷ t) ≡ s ++ 10 ∷ normalize_line_endings t)
      × (normalize_line_endings (s ++ 13 ∷ c ∷ t) ≡ s ++ 10 ∷ normalize_line_endings (c ∷ t))
      × (normalize_line_endings (s ++ 10 ∷ t) ≡ s ++ 10 ∷ normalize_line_endings t)
      × (normalize_line_endings s ≡ s)
unfolding normalize_line_endings
normalize_line_endings_lem s t c h n = (
  line_endings_from-append s (13 ∷ 10 ∷ t) h ∙ unfold line_endings_from in refl,
  line_endings_from-append s (13 ∷ c ∷ t) h ∙ unfold line_endings_from in (ground arith),
  line_endings_from-append s (10 ∷ t) h ∙ unfold line_endings_from in refl,
  line_endings_from-fixed s h,
)

-- Reading gives the normalized text if that is accepted, and otherwise nothing.
read_cases :
    (type : SlotType) (value : Bytes)
    → (normalize_slot_value type value ≡ [])
      ⊎ (normalize_slot_value type value ≡ line_endings_from false value)
        × (validate_slot_value type (line_endings_from false value) ≡ [])
unfolding normalize_slot_value normalize_line_endings
read_cases type value = step (validate_slot_value type (line_endings_from false value)) refl
  where
    step :
        (m : Bytes)
        → validate_slot_value type (line_endings_from false value) ≡ m
        → (normalize_slot_value type value ≡ [])
          ⊎ (normalize_slot_value type value ≡ line_endings_from false value)
            × (validate_slot_value type (line_endings_from false value) ≡ [])
    step [] e = inr (rw e, e)
    step (c ∷ m) e = inl (rw e)

read_fixed :
    (type : SlotType) (value : Bytes)
    → Without 13 value
    → validate_slot_value type value ≡ []
    → normalize_slot_value type value ≡ value
unfolding normalize_slot_value normalize_line_endings
read_fixed type value plain good = rw (line_endings_from-fixed value plain, good)

-- Whatever is stored, what is read is accepted by the validator and holds no carriage return; reading
-- it again changes nothing; and an accepted value without carriage returns is read as it stands.
pub normalize_slot_value_lem :
    (type : SlotType) (value : Bytes)
    → (validate_slot_value type (normalize_slot_value type value) ≡ [])
      × Without 13 (normalize_slot_value type value)
      × (normalize_slot_value type (normalize_slot_value type value)
          ≡ normalize_slot_value type value)
      × (validate_slot_value type value ≡ []
          → Without 13 value
          → normalize_slot_value type value ≡ value)
normalize_slot_value_lem type value =
    let clean = line_endings_from-Without false value in
    let nothing : validate_slot_value type [] ≡ [] = unfold validate_slot_value in refl in
    let kept = λ (good : validate_slot_value type value ≡ []) (plain : Without 13 value).
      read_fixed type value plain good in
    elim (read_cases type value) [
      | inl e ↦ (rw e nothing, rw e tt, rw e (read_fixed type [] tt nothing), kept)
      | inr (e, good) ↦ (
        rw e good,
        rw e clean,
        rw e (read_fixed type (line_endings_from false value) clean good),
        kept,
      )
    ]
