-- ===== src/Branding/SiteValues/Shapes.antt =====
-- Colours and links: the validators accept exactly the described shapes.
use server_components.Common.{
  ℕ, ◌≤◌, ◌<◌, ◌≡◌, refl, sym, subst, ◌≢◌, ◌↔◌, ◌⊎◌, inl, inr, Bool, true, false, ◌||◌, [], ◌∷◌,
  ◌++◌, arith, if◌then◌else◌, ltb, ◌==◌, length, All, all, any, Bool-cases, Bytes, bytes,
  starts_with, starts_with_split, starts_with_append, drop, length-append,
}
use server_components.Branding.SiteValues.{
  is_hex_digit, is_control_byte, is_valid_hex_color, is_root_relative, is_valid_site_url,
  max_url_bytes,
}

abbrev pub InRange : ℕ → ℕ → ℕ → Type 0
InRange lo hi c = (lo ≤ c) × (c ≤ hi)

abbrev pub IsHexDigit : ℕ → Type 0
IsHexDigit c = InRange b'0' b'9' c ⊎ InRange b'a' b'f' c ⊎ InRange b'A' b'F' c

is_hex_digit_iff : (c : ℕ) → (is_hex_digit c ≡ true) ↔ IsHexDigit c
unfolding is_hex_digit
is_hex_digit_iff c = ground arith

All-iff {ℓ} :
    (p : ℕ → Bool) (P : ℕ → Type ℓ)
    → ((c : ℕ) → (p c ≡ true) ↔ P c)
    → (s : Bytes) → (all p s ≡ true) ↔ All P s
All-iff p P f [] = (λ _. tt, λ _. refl)
All-iff p P f (c ∷ s) =
    let (sound, complete) = f c in
    let (sounds, completes) = All-iff p P f s in
    (
      λ h. (sound (ground arith), sounds (ground arith)),
      λ (h, hs). ground (arith, complete h, completes hs),
    )

abbrev pub IsHexColor : Bytes → Type 0
IsHexColor value =
    (digits : Bytes) × (value ≡ b'#' ∷ digits) × (length digits ≡ 6) × All IsHexDigit digits

-- Accepted as a colour is exactly a number sign with six hexadecimal digits.
pub is_valid_hex_color_iff : (value : Bytes) → (is_valid_hex_color value ≡ true) ↔ IsHexColor value
unfolding is_valid_hex_color
is_valid_hex_color_iff [] = (λ h. cc, λ (digits, e, _, _). cc)
is_valid_hex_color_iff (c ∷ digits) =
    let (sound, complete) = All-iff is_hex_digit IsHexDigit is_hex_digit_iff digits in
    (
      λ h. (digits, ground arith, ground arith, sound (ground arith)),
      λ (ds, e, size, h).
          let same : digits ≡ ds = cc in
          ground (arith, complete (subst (All IsHexDigit) (sym same) h)),
    )

abbrev pub IsClean : ℕ → Type 0
IsClean c = (b' ' < c) × (c ≢ 127)

-- A link to a web address, or to a path of the site itself. The second byte of a path is neither a
-- slash nor a backslash, which browsers take for the start of another host.
pub data SiteUrl (value : Bytes) : Type 0 where
  http : (rest : Bytes) → rest ≢ [] → value ≡ bytes "http://" ++ rest → SiteUrl value
  https : (rest : Bytes) → rest ≢ [] → value ≡ bytes "https://" ++ rest → SiteUrl value
  root : value ≡ bytes "/" → SiteUrl value
  path : (c : ℕ) (rest : Bytes) → c ≢ b'/' → c ≢ 92 → value ≡ b'/' ∷ c ∷ rest → SiteUrl value

abbrev dirty : ℕ → Bool
dirty c = is_control_byte c || c == b' '

any-dirty : (s : Bytes) → any dirty s ≡ false → All IsClean s
any-dirty [] h = tt
any-dirty (c ∷ s) h = (unfold is_control_byte in (ground arith), any-dirty s (ground arith))

All-IsClean : (s : Bytes) → All IsClean s → any dirty s ≡ false
unfolding is_control_byte
All-IsClean [] h = refl
All-IsClean (c ∷ s) (h, hs) = ground (arith, All-IsClean s hs)

ltb_append : (p s : Bytes) → ltb (length p) (length (p ++ s)) ≡ true → s ≢ []
ltb_append p [] h e = absurd (ground (arith, length-append p []))
ltb_append p (c ∷ s) h e = cc

length_prefix : (p s : Bytes) → s ≢ [] → ltb (length p) (length (p ++ s)) ≡ true
length_prefix p [] n = absurd (n refl)
length_prefix p (c ∷ s) n = ground (arith, length-append p (c ∷ s))

prefix_SiteUrl :
    (p value : Bytes)
    → starts_with p value ≡ true
    → ltb (length p) (length value) ≡ true
    → (rest : Bytes) × (rest ≢ []) × (value ≡ p ++ rest)
prefix_SiteUrl p value h long =
    let cut = sym (starts_with_split p value h) in
    let rest = drop (length p) value in
    (rest, ltb_append p rest (subst (λ v. ltb (length p) (length v) ≡ true) cut long), cut)

is_root_relative-SiteUrl : (value : Bytes) → is_root_relative value ≡ true → SiteUrl value
unfolding is_root_relative
is_root_relative-SiteUrl [] h = cc
is_root_relative-SiteUrl (c ∷ []) h = root (ground arith)
is_root_relative-SiteUrl (c ∷ d ∷ rest) h = path d rest (ground arith) (ground arith) (ground arith)

shape : Bytes → Bool
shape value =
    if starts_with (bytes "http://") value
    then ltb 7 (length value)
    else if starts_with (bytes "https://") value
    then ltb 8 (length value)
    else is_root_relative value

shape-SiteUrl : (value : Bytes) → shape value ≡ true → SiteUrl value
unfolding shape
shape-SiteUrl value h = elim (Bool-cases (starts_with (bytes "http://") value)) [
  | inl plain ↦
      let (rest, n, e) = prefix_SiteUrl (bytes "http://") value plain (ground arith) in
      http rest n e
  | inr not_plain ↦ elim (Bool-cases (starts_with (bytes "https://") value)) [
    | inl secure ↦
        let (rest, n, e) = prefix_SiteUrl (bytes "https://") value secure (ground arith) in
        https rest n e
    | inr not_secure ↦ is_root_relative-SiteUrl value (ground arith)
  ]
]

SiteUrl-shape : (value : Bytes) → SiteUrl value → shape value ≡ true
unfolding shape
SiteUrl-shape value (http rest n e) =
    rw (e, starts_with_append (bytes "http://") rest) (length_prefix (bytes "http://") rest n)
SiteUrl-shape value (https rest n e) =
    rw e (unfold starts_with in (length_prefix (bytes "https://") rest n))
SiteUrl-shape value (root e) = rw e (unfold starts_with is_root_relative in refl)
SiteUrl-shape value (path c rest n m e) =
    rw e (unfold starts_with is_root_relative in (ground arith))

-- Accepted as a link is exactly a clean text of at most 2048 bytes that has one of the four shapes.
pub is_valid_site_url_iff :
    (value : Bytes)
    → (is_valid_site_url value ≡ true)
      ↔ (length value ≤ max_url_bytes) × All IsClean value × SiteUrl value
unfolding is_valid_site_url shape
is_valid_site_url_iff value = (
  λ h. (ground arith, any-dirty value (ground arith), shape-SiteUrl value (ground arith)),
  λ (size, clean, url). ground (arith, All-IsClean value clean, SiteUrl-shape value url),
)
