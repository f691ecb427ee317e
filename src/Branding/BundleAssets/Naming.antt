-- ===== src/Branding/BundleAssets/Naming.antt =====
-- The names that `MakeAssetName` makes.
use server_components.Common.{
  ℕ, zero, suc, ◌+◌, ◌-◌, ◌≤◌, ◌≡◌, ◌≢◌, refl, Bool, true, false, ◌&&◌, ◌||◌, not, inl, inr, none,
  [], ◌∷◌, ◌++◌, ltb, ◌==◌, length, length-append, length-take, all, all_iff, All, All-append,
  All-take, All-weaken, take, arith, Bytes, bytes, is_empty, starts_with, trim_back, Without,
  Bool-cases,
}
use server_components.Foundation.Text.{find_bytes}
use server_components.Branding.BundleAssets.{
  contains, is_ascii_alnum, is_asset_name_char, is_valid_bundle_asset_name, stem_from, to_lower,
  sanitize_asset_stem, room_for_stem, or_asset, fit_stem, make_asset_name, max_asset_name_bytes,
}

-- A letter, a digit or a hyphen.
abbrev pub IsStemChar : ℕ → Type 0
IsStemChar c = (is_ascii_alnum c || c == b'-') ≡ true

abbrev pub StartsAlnum : Bytes → Type 0
StartsAlnum [] = Unit
StartsAlnum (c ∷ s) = is_ascii_alnum c ≡ true

-- Empty, or a letter or digit with letters, digits and hyphens behind it.
abbrev pub IsStem : Bytes → Type 0
IsStem s = StartsAlnum s × All IsStemChar s

stem_from-IsStemChar : (begun last : Bool) (s : Bytes) → All IsStemChar (stem_from begun last s)
unfolding stem_from
stem_from-IsStemChar begun last [] = tt
stem_from-IsStemChar begun last (c ∷ s) =
    let rest =
      stem_from-IsStemChar (begun || is_ascii_alnum c) (not (is_ascii_alnum c) && begun) s in
    elim (Bool-cases (is_ascii_alnum c)) [
      | inl alnum ↦
          rw alnum (rw alnum refl, stem_from-IsStemChar (begun || true) (not true && begun) s)
      | inr other ↦ elim (Bool-cases (begun && not last)) [
        | inl put ↦
            rw (other, put) (refl, stem_from-IsStemChar (begun || false) (not false && begun) s)
        | inr skip ↦ rw (other, skip) (stem_from-IsStemChar (begun || false) (not false && begun) s)
      ]
    ]

stem_from-StartsAlnum : (s : Bytes) → StartsAlnum (stem_from false false s)
unfolding stem_from
stem_from-StartsAlnum [] = tt
stem_from-StartsAlnum (c ∷ s) = elim (Bool-cases (is_ascii_alnum c)) [
  | inl alnum ↦ rw alnum alnum
  | inr other ↦ rw other (stem_from-StartsAlnum s)
]

trim_back-All : (p : ℕ → Bool) (s : Bytes) → All IsStemChar s → All IsStemChar (trim_back p s)
unfolding trim_back
trim_back-All p [] h = tt
trim_back-All p (c ∷ s) (char, h) = elim (Bool-cases (is_empty (trim_back p s) && p c)) [
  | inl gone ↦ rw gone tt
  | inr kept ↦ rw kept (char, trim_back-All p s h)
]

not_hyphen : (c : ℕ) → is_ascii_alnum c ≡ true → (c == b'-') ≡ false
unfolding is_ascii_alnum
not_hyphen c alnum = ground arith

length-trim_back : (p : ℕ → Bool) (s : Bytes) → length (trim_back p s) ≤ length s
unfolding trim_back
length-trim_back p [] = omega arith
length-trim_back p (c ∷ s) = ground (arith, length-trim_back p s)

-- Taking the hyphens from the end leaves a stem, which is empty only if the whole was.
trim_back-IsStem :
    (s : Bytes)
    → IsStem s
    → IsStem (trim_back (λ c. c == b'-') s)
      × (is_empty (trim_back (λ c. c == b'-') s) ≡ is_empty s)
      × (length (trim_back (λ c. c == b'-') s) ≤ length s)
unfolding trim_back
trim_back-IsStem [] h = ((tt, tt), refl, omega arith)
trim_back-IsStem (c ∷ s) (alnum, (char, h)) =
    let hyphen = not_hyphen c alnum in
    let shorter = length-trim_back (λ c. c == b'-') s in
    let kept : (is_empty (trim_back (λ c. c == b'-') s) && c == b'-') ≡ false = ground arith in
    rw kept ((alnum, (char, trim_back-All (λ c. c == b'-') s h)), refl, omega arith)

sanitize_asset_stem-IsStem : (text : Bytes) → IsStem (sanitize_asset_stem text)
unfolding sanitize_asset_stem
sanitize_asset_stem-IsStem text =
    (trim_back-IsStem (stem_from false false (to_lower text))
      (stem_from-StartsAlnum (to_lower text), stem_from-IsStemChar false false (to_lower text))).0

or_asset-IsStem : (s : Bytes) → IsStem s → IsStem (or_asset s) × (is_empty (or_asset s) ≡ false)
unfolding is_ascii_alnum
or_asset-IsStem [] h = ((refl, (refl, (refl, (refl, (refl, (refl, tt)))))), refl)
or_asset-IsStem (c ∷ s) h = (h, refl)

or_asset_full : (s : Bytes) → is_empty s ≡ false → or_asset s ≡ s
or_asset_full [] full = cc
or_asset_full (c ∷ s) full = refl

fit_stem-IsStem :
    (room : ℕ) (s : Bytes)
    → 1 ≤ room
    → IsStem s
    → is_empty s ≡ false
    → IsStem (fit_stem room s)
      × (is_empty (fit_stem room s) ≡ false)
      × (length (fit_stem room s) ≤ room)
unfolding fit_stem
fit_stem-IsStem room [] some_room h full = cc
fit_stem-IsStem zero (c ∷ s) some_room h full = absurd (omega (arith, some_room))
fit_stem-IsStem (suc room) (c ∷ s) some_room (alnum, (char, h)) full =
    elim (Bool-cases (ltb (suc room) (length (c ∷ s)))) [
      | inl long ↦
          let (stem, same, shorter) =
            trim_back-IsStem (c ∷ take room s) (alnum, (char, All-take IsStemChar room s h)) in
          let same_text = or_asset_full (trim_back (λ c. c == b'-') (c ∷ take room s)) same in
          let taken = length-take room s in rw (long, same_text) (stem, same, omega arith)
      | inr fits ↦
          let short : length (c ∷ s) ≤ suc room = ground arith in
          rw fits ((alnum, (char, h)), refl, short)
    ]

no_dots : (s : Bytes) → Without b'.' s → find_bytes (bytes "..") s ≡ none
unfolding find_bytes starts_with
no_dots [] h = refl
no_dots (c ∷ s) (ne, h) = let rest = no_dots s h in ground arith

-- One dot is no two.
one_dot :
    (s extension : Bytes)
    → Without b'.' s
    → Without b'.' extension
    → find_bytes (bytes "..") (s ++ b'.' ∷ extension) ≡ none
unfolding find_bytes starts_with
one_dot [] [] h g = refl
one_dot [] (d ∷ extension) h g = let rest = no_dots (d ∷ extension) g in ground arith
one_dot (c ∷ s) extension h g = let rest = one_dot s extension h.1 g in ground arith

alnum_char : (c : ℕ) → is_ascii_alnum c ≡ true → is_asset_name_char c ≡ true
unfolding is_asset_name_char
alnum_char c alnum = ground arith

stem_char : (c : ℕ) → IsStemChar c → is_asset_name_char c ≡ true
unfolding is_asset_name_char
stem_char c char = ground arith

stem_char-no_dot : (c : ℕ) → IsStemChar c → c ≢ b'.'
unfolding is_ascii_alnum
stem_char-no_dot c char = ground arith

alnum_no_dot : (c : ℕ) → is_ascii_alnum c ≡ true → c ≢ b'.'
unfolding is_ascii_alnum
alnum_no_dot c alnum = ground arith

joined_valid :
    (s extension : Bytes)
    → IsStem s
    → is_empty s ≡ false
    → All (λ c. is_ascii_alnum c ≡ true) extension
    → length s + suc (length extension) ≤ 64
    → is_valid_bundle_asset_name (s ++ b'.' ∷ extension) ≡ true
unfolding is_valid_bundle_asset_name contains
joined_valid [] extension h full chars short = cc
joined_valid (c ∷ s) extension (alnum, (char, h)) full chars short =
    let name = c ∷ s ++ b'.' ∷ extension in
    let long : ltb max_asset_name_bytes (length name) ≡ false =
      ground (arith, length-append s (b'.' ∷ extension)) in
    let valid : all is_asset_name_char (s ++ b'.' ∷ extension) ≡ true =
      (all_iff is_asset_name_char (s ++ b'.' ∷ extension)).1 (
        All-append (λ d. is_asset_name_char d ≡ true) s (b'.' ∷ extension)
          (All-weaken IsStemChar (λ d. is_asset_name_char d ≡ true) stem_char s h)
          (
            unfold is_asset_name_char in refl,
            All-weaken (λ d. is_ascii_alnum d ≡ true) (λ d. is_asset_name_char d ≡ true) alnum_char
                extension chars,
          )) in
    let dots =
      one_dot (c ∷ s) extension
        (All-weaken IsStemChar (λ d. d ≢ b'.') stem_char-no_dot (c ∷ s) (char, h))
        (All-weaken (λ d. is_ascii_alnum d ≡ true) (λ d. d ≢ b'.') alnum_no_dot extension chars) in
    rw (long, alnum, valid, contains, dots) refl

room_lem :
    (extension : Bytes) → length extension ≤ 62 → room_for_stem extension ≡ 63 - length extension
unfolding room_for_stem
room_lem extension few = omega (arith, few)

-- A name is made for every stem, whatever its bytes and its length, and every extension of 1 to 62 letters and
-- digits: it is a valid name, which ends with the extension.
pub make_asset_name-valid :
    (stem extension : Bytes)
    → All (λ c. is_ascii_alnum c ≡ true) extension
    → 1 ≤ length extension
    → length extension ≤ 62
    → (is_valid_bundle_asset_name (make_asset_name stem extension) ≡ true)
      × ((made : Bytes) × (make_asset_name stem extension ≡ made ++ b'.' ∷ extension))
unfolding make_asset_name
make_asset_name-valid stem [] chars some_chars few = absurd (omega arith)
make_asset_name-valid stem (e ∷ extension) chars some_chars few =
    let (clean, clean_full) =
      or_asset-IsStem (sanitize_asset_stem stem) (sanitize_asset_stem-IsStem stem) in
    let room = room_for_stem (e ∷ extension) in
    let room_is = room_lem (e ∷ extension) few in
    let (fitted, full, short) =
      fit_stem-IsStem room (or_asset (sanitize_asset_stem stem)) (omega (arith, room_is)) clean
        clean_full in
    let valid =
      joined_valid (fit_stem room (or_asset (sanitize_asset_stem stem))) (e ∷ extension) fitted full
        chars (omega (arith, short, room_is)) in
    rw valid (valid, (fit_stem room (or_asset (sanitize_asset_stem stem)), refl))
