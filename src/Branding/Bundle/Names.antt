-- ===== src/Branding/Bundle/Names.antt =====
-- What the name of a file of a bundle has to be, described byte by byte.
use server_components.Common.{
  ℕ, ◌≤◌, ◌≡◌, ◌↔◌, refl, sym, ◌∙◌, Bool, true, false, not, if◌then◌else◌, ◌&&◌, ◌||◌, inl, inr, [],
  ◌∷◌, all, arith, leb, ltb, ◌==◌, length, Bytes, bytes, starts_with, Bool-cases, Option-cases,
}
use server_components.Foundation.Text.{find_bytes}
use server_components.Branding.BundleAssets.{
  contains, is_ascii_alnum, is_asset_name_char, is_valid_bundle_asset_name, max_asset_name_bytes,
}

abbrev pub is_letter_or_digit : ℕ → Bool
is_letter_or_digit c =
    leb b'0' c && leb c b'9' || leb b'A' c && leb c b'Z' || leb b'a' c && leb c b'z'

abbrev pub begins_with_dot : Bytes → Bool
begins_with_dot [] = false
begins_with_dot (c ∷ s) = c == b'.'

abbrev pub has_two_dots : Bytes → Bool
has_two_dots [] = false
has_two_dots (c ∷ s) = c == b'.' && begins_with_dot s || has_two_dots s

-- A letter or digit, then letters, digits, dots, underscores and hyphens, up to 64 bytes, with no two dots side by side.
abbrev pub IsAssetName : Bytes → Type 0
IsAssetName [] = ⊥
IsAssetName (c ∷ name) =
    (is_letter_or_digit c ≡ true)
    × (all (λ d. is_letter_or_digit d || d == b'.' || d == b'_' || d == b'-') (c ∷ name) ≡ true)
    × (has_two_dots (c ∷ name) ≡ false)
    × (length (c ∷ name) ≤ 64)

two_dots_at :
    (c : ℕ) (s : Bytes) → starts_with (bytes "..") (c ∷ s) ≡ (c == b'.' && begins_with_dot s)
unfolding starts_with
two_dots_at c [] = ground arith
two_dots_at c (d ∷ s) = ground arith

four_tests :
    (long first chars dots : Bool)
    → ((if long then false else if not first then false else if not chars then false else not dots)
        ≡ true)
      ↔ (first ≡ true) × (chars ≡ true) × (dots ≡ false) × (long ≡ false)
four_tests long first chars dots = ground arith

contains-two_dots : (s : Bytes) → contains (bytes "..") s ≡ has_two_dots s
unfolding contains find_bytes starts_with
contains-two_dots [] = refl
contains-two_dots (c ∷ s) = elim (Bool-cases (starts_with (bytes "..") (c ∷ s))) [
  | inl here ↦
      let together : (c == b'.' && begins_with_dot s) ≡ true = sym (two_dots_at c s) ∙ here in
      rw (contains, find_bytes, here, together) refl
  | inr none_here ↦
      let apart : (c == b'.' && begins_with_dot s) ≡ false = sym (two_dots_at c s) ∙ none_here in
      rw (contains, find_bytes, none_here, apart, ← contains-two_dots s)
        (elim (Option-cases (find_bytes (bytes "..") s)) [
          | inl e ↦ rw (contains, e) refl
          | inr (i, e) ↦ rw (contains, e) refl
        ])
]

alnum_lem : (c : ℕ) → is_ascii_alnum c ≡ is_letter_or_digit c
unfolding is_ascii_alnum
alnum_lem c = ground arith

chars_lem :
    (s : Bytes)
    → all is_asset_name_char s
      ≡ all (λ d. is_letter_or_digit d || d == b'.' || d == b'_' || d == b'-') s
unfolding is_asset_name_char
chars_lem [] = refl
chars_lem (c ∷ s) = rw (alnum_lem c, chars_lem s) refl

pub is_valid_bundle_asset_name_iff :
    (name : Bytes) → (is_valid_bundle_asset_name name ≡ true) ↔ IsAssetName name
unfolding is_valid_bundle_asset_name
is_valid_bundle_asset_name_iff [] = (λ h. cc, λ h. absurd h)
is_valid_bundle_asset_name_iff (c ∷ name) =
    let first = alnum_lem c in
    let chars = chars_lem (c ∷ name) in
    let dots = contains-two_dots (c ∷ name) in
    let (sound, complete) =
      four_tests (ltb max_asset_name_bytes (length (c ∷ name))) (is_ascii_alnum c)
        (all is_asset_name_char (c ∷ name)) (contains (bytes "..") (c ∷ name)) in
    (
      λ h.
          let (alnum, known, apart, short) = sound h in
          (sym first ∙ alnum, sym chars ∙ known, sym dots ∙ apart, ground (arith, short)),
      λ (alnum, known, apart, short).
          complete (first ∙ alnum, chars ∙ known, dots ∙ apart, ground (arith, short)),
    )
