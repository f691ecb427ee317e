-- ===== src/Branding/Bundle/Kinds.antt =====
-- What a file of a bundle is by its bytes, described by the marks of the formats.
use server_components.Common.{
  ℕ, ◌≤◌, ◌<◌, ◌≡◌, refl, Bool, true, false, not, if◌then◌else◌, ◌&&◌, ◌||◌, inl, inr, List, [],
  ◌∷◌, ◌++◌, any, arith, leb, ltb, ◌==◌, length, length-drop, take, drop, Bytes, bytes, bytes_eq,
  is_empty, starts_with, Without, Bool-cases,
}
use server_components.Branding.BundleAssets.{contains, image_type_from_magic_bytes}
use server_components.Branding.Fonts.{font_format_from_magic_bytes}

-- WOFF2, WOFF, OpenType, TrueType in its two forms, and a collection.
abbrev pub font_marks : List Bytes
font_marks =
    bytes "wOF2"
    ∷ bytes "wOFF"
    ∷ bytes "OTTO"
    ∷ (0 ∷ 1 ∷ 0 ∷ 0 ∷ [])
    ∷ bytes "true"
    ∷ bytes "ttcf"
    ∷ []

-- PNG, JPEG and the two versions of GIF.
abbrev pub image_marks : List Bytes
image_marks =
    (137 ∷ b'P' ∷ b'N' ∷ b'G' ∷ 13 ∷ 10 ∷ 26 ∷ 10 ∷ [])
    ∷ (255 ∷ 216 ∷ 255 ∷ [])
    ∷ bytes "GIF87a"
    ∷ bytes "GIF89a"
    ∷ []

abbrev pub has_mark : List Bytes → Bytes → Bool
has_mark marks contents = any (λ mark. starts_with mark contents) marks

-- A RIFF container of the kind WEBP, whose size stands between.
abbrev pub is_webp : Bytes → Bool
is_webp contents =
    starts_with (bytes "RIFF") contents && starts_with (bytes "WEBP") (drop 8 contents)

-- The element stands in the first 512 bytes.
abbrev pub shows_svg : Bytes → Bool
shows_svg contents = contains (bytes "<svg") (take 512 contents)

-- A text whose root element is a drawing: white space, declarations and comments may stand before it.
pub data OpensDrawing : Bytes → Type 0 where
  root : {contents : Bytes} → starts_with (bytes "<svg") contents ≡ true → OpensDrawing contents
  space :
      {c : ℕ} {contents : Bytes}
      → (c == 32 || c == 10 || c == 13 || c == 9) ≡ true
      → OpensDrawing contents
      → OpensDrawing (c ∷ contents)
  declaration :
      (c : ℕ) (text : Bytes) {contents : Bytes}
      → (c == b'?' || c == b'!') ≡ true
      → Without b'>' text
      → OpensDrawing contents
      → OpensDrawing (b'<' ∷ c ∷ (text ++ b'>' ∷ contents))

starts_with-length : (p s : Bytes) → starts_with p s ≡ true → length p ≤ length s
unfolding starts_with
starts_with-length [] s h = omega arith
starts_with-length (c ∷ p) [] h = cc
starts_with-length (c ∷ p) (d ∷ s) h = ground (arith, starts_with-length p s)

take-starts_with : (p s : Bytes) → bytes_eq (take (length p) s) p ≡ starts_with p s
unfolding starts_with bytes_eq
take-starts_with [] s = refl
take-starts_with (c ∷ p) [] = refl
take-starts_with (c ∷ p) (d ∷ s) = rw (take-starts_with p s) (ground arith)

no_format :
    (a b c d e f : Bool)
    → is_empty (
        if a
        then bytes "woff2"
        else if b
        then bytes "woff"
        else if c
        then bytes "otf"
        else if d
        then bytes "ttf"
        else if e
        then bytes "ttf"
        else if f
        then bytes "ttf"
        else [])
      ≡ not (a || (b || (c || (d || (e || (f || false))))))
no_format a b c d e f = ground arith

too_short : (p s : Bytes) → length s < length p → starts_with p s ≡ false
unfolding starts_with
too_short [] s h = absurd (omega arith)
too_short (c ∷ p) [] h = refl
too_short (c ∷ p) (d ∷ s) h = ground (arith, too_short p s)

-- A file is no font exactly if it begins with none of the marks.
pub font_format_lem :
    (s : Bytes) → is_empty (font_format_from_magic_bytes s) ≡ not (has_mark font_marks s)
unfolding font_format_from_magic_bytes
font_format_lem s = elim (Bool-cases (ltb (length s) 4)) [
  | inl short ↦
      let none_fits = λ (mark : Bytes) (four : length mark ≡ 4). too_short mark s (ground arith) in
      rw
        (
          short,
          none_fits (bytes "wOF2") refl,
          none_fits (bytes "wOFF") refl,
          none_fits (bytes "OTTO") refl,
          none_fits (0 ∷ 1 ∷ 0 ∷ 0 ∷ []) refl,
          none_fits (bytes "true") refl,
          none_fits (bytes "ttcf") refl,
        )
        refl
  | inr long ↦ rw long (
      no_format (starts_with (bytes "wOF2") s) (starts_with (bytes "wOFF") s)
        (starts_with (bytes "OTTO") s) (starts_with (0 ∷ 1 ∷ 0 ∷ 0 ∷ []) s)
        (starts_with (bytes "true") s) (starts_with (bytes "ttcf") s))
]

webp_lem :
    (s : Bytes)
    → (leb 12 (length s)
        && starts_with (bytes "RIFF") s
        && bytes_eq (take 4 (drop 8 s)) (bytes "WEBP"))
      ≡ is_webp s
webp_lem s = elim (Bool-cases (starts_with (bytes "WEBP") (drop 8 s))) [
  | inl kind ↦
      let four = starts_with-length (bytes "WEBP") (drop 8 s) kind in
      let long : leb 12 (length s) ≡ true = ground (arith, length-drop 8 s) in
      rw (take-starts_with (bytes "WEBP") (drop 8 s), kind, long) refl
  | inr other ↦ rw (take-starts_with (bytes "WEBP") (drop 8 s), other) (ground arith)
]

no_type :
    (a b c d e f : Bool)
    → is_empty (
        if a
        then bytes "png"
        else if b
        then bytes "jpeg"
        else if c || d
        then bytes "gif"
        else if e
        then bytes "webp"
        else if f
        then bytes "svg"
        else [])
      ≡ not ((a || (b || (c || (d || false)))) || e || f)
no_type a b c d e f = ground arith

pub image_type_lem :
    (s : Bytes)
    → is_empty (image_type_from_magic_bytes s)
      ≡ not (has_mark image_marks s || is_webp s || shows_svg s)
unfolding image_type_from_magic_bytes
image_type_lem s = rw (webp_lem s) (no_type _ _ _ _ _ _)
