-- ===== src/Branding/SiteValues/CssLengths.antt =====
-- CSS lengths: `IsValidCssLength` accepts exactly a number with a unit.
use server_components.Common.{
  ℕ, ◌≤◌, ◌≡◌, refl, sym, subst, ap, ◌∙◌, ◌≢◌, ◌↔◌, ◌⊎◌, inl, inr, Bool, true, false, ◌||◌, not, [],
  ◌∷◌, ◌++◌, arith, if◌then◌else◌, ◌==◌, length, All, Bool-cases, Bytes, bytes, bytes_eq,
  bytes_eq_iff, is_empty,
}
use server_components.Branding.SiteValues.{
  is_decimal_digit, skip_digits, skip_fraction, is_css_unit, is_valid_css_length,
}

abbrev pub AreDigits : Bytes → Type 0
AreDigits s = All (λ c. (b'0' ≤ c) × (c ≤ b'9')) s

abbrev pub IsUnit : Bytes → Type 0
IsUnit u =
    (u ≡ bytes "px") ⊎ (u ≡ bytes "rem") ⊎ (u ≡ bytes "em") ⊎ (u ≡ bytes "%") ⊎ (u ≡ bytes "pt")

-- A bare zero, or digits with an optional fraction, at least one digit in all, and a unit.
pub data CssLength (value : Bytes) : Type 0 where
  zero_length : value ≡ bytes "0" → CssLength value
  whole_length :
      (whole unit : Bytes)
      → AreDigits whole
      → whole ≢ []
      → IsUnit unit
      → value ≡ whole ++ unit
      → CssLength value
  fraction_length :
      (whole fraction unit : Bytes)
      → AreDigits whole
      → AreDigits fraction
      → whole ++ fraction ≢ []
      → IsUnit unit
      → value ≡ whole ++ (b'.' ∷ (fraction ++ unit))
      → CssLength value

is_css_unit_iff : (u : Bytes) → (is_css_unit u ≡ true) ↔ IsUnit u
unfolding is_css_unit
is_css_unit_iff u = ground (
  arith,
  bytes_eq_iff u (bytes "px"),
  bytes_eq_iff u (bytes "rem"),
  bytes_eq_iff u (bytes "em"),
  bytes_eq_iff u (bytes "%"),
  bytes_eq_iff u (bytes "pt"),
)

-- What the digit loop passes over.
skip_digits_split :
    (saw : Bool) (s : Bytes)
    → let (saw', rest) = skip_digits saw s in
      (digits : Bytes) × AreDigits digits
      × (s ≡ digits ++ rest)
      × (saw' ≡ true → (saw ≡ true) ⊎ (digits ≢ []))
unfolding skip_digits
skip_digits_split saw [] = ([], tt, refl, λ e. inl e)
skip_digits_split saw (c ∷ s) = elim (Bool-cases (is_decimal_digit c)) [
  | inl digit ↦
      let (digits, h, e, _) = skip_digits_split true s in
      rw digit (
        c ∷ digits,
        (unfold is_decimal_digit in (ground arith), h),
        ap (◌∷◌ c) e,
        λ _. inr (λ n. cc),
      )
  | inr other ↦ rw other ([], tt, refl, λ e. inl e)
]

-- The loop stops at a text that does not begin with a digit.
abbrev Stops : Bytes → Type 0
Stops [] = Unit
Stops (c ∷ s) = is_decimal_digit c ≡ false

skip_digits-append :
    (saw : Bool) (digits rest : Bytes)
    → AreDigits digits
    → Stops rest
    → skip_digits saw (digits ++ rest) ≡ (saw || not (is_empty digits), rest)
unfolding skip_digits
skip_digits-append saw [] [] h stops = ground arith
skip_digits-append saw [] (c ∷ rest) h stops = ground arith
skip_digits-append saw (c ∷ digits) rest h stops =
    rw (digit c h.0) (skip_digits-append true digits rest h.1 stops ∙ ground arith)
  where
    digit : (c : ℕ) → (b'0' ≤ c) × (c ≤ b'9') → is_decimal_digit c ≡ true
    digit c h = unfold is_decimal_digit in (ground arith)

fraction_sound :
    (whole behind : Bytes) (saw : Bool)
    → AreDigits whole
    → (saw ≡ true → whole ≢ [])
    → (skip_fraction saw behind).0 ≡ true
    → is_css_unit (skip_fraction saw behind).1 ≡ true
    → CssLength (whole ++ behind)
unfolding skip_fraction
fraction_sound whole [] saw h some_digit seen good =
    whole_length whole [] h (some_digit seen) ((is_css_unit_iff []).0 good) refl
fraction_sound whole (c ∷ s) saw h some_digit seen good = elim (Bool-cases (c == b'.')) [
  | inl dot ↦
      let is_dot : c ≡ b'.' = ground arith in
      let (fraction, hf, e, seen_by) = skip_digits_split saw s in
      let seen' : (skip_digits saw s).0 ≡ true = ground arith in
      let good' : is_css_unit (skip_digits saw s).1 ≡ true = ground arith in
      fraction_length whole fraction (skip_digits saw s).1 h hf
        (elim (seen_by seen') [
          | inl before ↦ append_ne_left whole fraction (some_digit before)
          | inr here ↦ append_ne_right whole fraction here
        ])
        ((is_css_unit_iff _).0 good') (ap (◌++◌ whole) (cc (is_dot, e)))
  | inr other ↦
      whole_length whole (c ∷ s) h (some_digit (ground arith))
        ((is_css_unit_iff (c ∷ s)).0 (ground arith)) refl
]
  where
    append_ne_left : (a b : Bytes) → a ≢ [] → a ++ b ≢ []
    append_ne_left [] b n e = n refl
    append_ne_left (c ∷ a) b n e = cc

    append_ne_right : (a b : Bytes) → b ≢ [] → a ++ b ≢ []
    append_ne_right [] b n e = n e
    append_ne_right (c ∷ a) b n e = cc

-- Digits, an optional fraction and a unit, as the code goes through them.
number_with_unit : Bytes → Bool
number_with_unit value =
    let (saw_whole, behind) = skip_digits false value in
    let (saw_digit, unit) = skip_fraction saw_whole behind in
    if not saw_digit then false else is_css_unit unit

number_sound : (value : Bytes) → number_with_unit value ≡ true → CssLength value
unfolding number_with_unit
number_sound value h =
    let (whole, hw, e, seen_by) = skip_digits_split false value in
    let (saw, behind) = skip_digits false value in
    subst CssLength (sym e) (
      fraction_sound whole behind saw hw (λ s. elim (seen_by s) [ inl f ↦ cc | inr n ↦ n ])
        (ground arith) (ground arith))

unit-Stops : (u : Bytes) → IsUnit u → Stops u
unfolding is_decimal_digit
unit-Stops u (inl e) = rw e refl
unit-Stops u (inr (inl e)) = rw e refl
unit-Stops u (inr (inr (inl e))) = rw e refl
unit-Stops u (inr (inr (inr (inl e)))) = rw e refl
unit-Stops u (inr (inr (inr (inr e)))) = rw e refl

unit_has_no_dot : (saw : Bool) (u : Bytes) → IsUnit u → skip_fraction saw u ≡ (saw, u)
unfolding skip_fraction
unit_has_no_dot saw u (inl e) = rw e refl
unit_has_no_dot saw u (inr (inl e)) = rw e refl
unit_has_no_dot saw u (inr (inr (inl e))) = rw e refl
unit_has_no_dot saw u (inr (inr (inr (inl e)))) = rw e refl
unit_has_no_dot saw u (inr (inr (inr (inr e)))) = rw e refl

not_empty : (s : Bytes) → s ≢ [] → is_empty s ≡ false
not_empty [] n = absurd (n refl)
not_empty (c ∷ s) n = refl

empty_with_unit : (s u : Bytes) → IsUnit u → is_empty (s ++ u) ≡ false
empty_with_unit [] u (inl e) = rw e refl
empty_with_unit [] u (inr (inl e)) = rw e refl
empty_with_unit [] u (inr (inr (inl e))) = rw e refl
empty_with_unit [] u (inr (inr (inr (inl e)))) = rw e refl
empty_with_unit [] u (inr (inr (inr (inr e)))) = rw e refl
empty_with_unit (c ∷ s) u h = refl

empty_in_middle : (s t : Bytes) → t ≢ [] → is_empty (s ++ t) ≡ false
empty_in_middle [] t n = not_empty t n
empty_in_middle (c ∷ s) t n = refl

whole_complete :
    (whole unit : Bytes)
    → AreDigits whole
    → whole ≢ []
    → IsUnit unit
    → number_with_unit (whole ++ unit) ≡ true
unfolding number_with_unit
whole_complete whole unit h n u =
    rw
      (
        skip_digits-append false whole unit h (unit-Stops unit u),
        unit_has_no_dot (not (is_empty whole)) unit u,
        not_empty whole n,
      )
      ((is_css_unit_iff unit).1 u)

dot-Stops : (s : Bytes) → Stops (b'.' ∷ s)
unfolding is_decimal_digit
dot-Stops s = refl

fraction_complete :
    (whole fraction unit : Bytes)
    → AreDigits whole
    → AreDigits fraction
    → whole ++ fraction ≢ []
    → IsUnit unit
    → number_with_unit (whole ++ (b'.' ∷ (fraction ++ unit))) ≡ true
unfolding number_with_unit skip_fraction
fraction_complete whole fraction unit hw hf n u =
    rw
      (
        skip_digits-append false whole (b'.' ∷ (fraction ++ unit)) hw
            (dot-Stops (fraction ++ unit)),
        skip_digits-append (not (is_empty whole)) fraction unit hf (unit-Stops unit u),
        some_digit whole fraction n,
      )
      ((is_css_unit_iff unit).1 u)
  where
    some_digit : (a b : Bytes) → a ++ b ≢ [] → (not (is_empty a) || not (is_empty b)) ≡ true
    some_digit [] b n = rw (not_empty b n)
    some_digit (c ∷ a) b n = refl

-- A CSS length is accepted exactly if it has at most 16 bytes and is a bare zero or a number with one
-- of the five units.
pub is_valid_css_length_iff :
    (value : Bytes) → (is_valid_css_length value ≡ true) ↔ (length value ≤ 16) × CssLength value
unfolding is_valid_css_length number_with_unit
is_valid_css_length_iff value = (
  λ h. (
    ground arith,
    elim (Bool-cases (bytes_eq value (bytes "0"))) [
      | inl bare ↦ zero_length ((bytes_eq_iff value (bytes "0")).0 bare)
      | inr not_bare ↦ number_sound value (ground arith)
    ],
  ),
  λ (size, shape). complete size shape,
)
  where
    complete : length value ≤ 16 → CssLength value → is_valid_css_length value ≡ true
    complete size (zero_length e) = rw e (unfold bytes_eq in refl)
    complete size (whole_length whole unit h n u e) =
        let good : number_with_unit value ≡ true = rw e (whole_complete whole unit h n u) in
        let some_text : is_empty value ≡ false = rw e (empty_with_unit whole unit u) in ground arith
    complete size (fraction_length whole fraction unit hw hf n u e) =
        let good : number_with_unit value ≡ true =
          rw e (fraction_complete whole fraction unit hw hf n u) in
        let some_text : is_empty value ≡ false =
          rw e (empty_in_middle whole (b'.' ∷ (fraction ++ unit)) (λ f. cc)) in
        ground arith
