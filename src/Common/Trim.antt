-- ===== src/Common/Trim.antt =====
-- The two loops of a trim, `while (!s.empty() && p(s.front())) s.remove_prefix(1)` and the same at
-- the back, which the program writes out more than once with different tests.
use server_components.Common.Tests.{if◌then◌else◌, Bool-cases}
use mathlib.Core.Logic.{◌≢◌, inl, inr}
use server_components.Common.Lists.{All}
use server_components.Common.ByteText.{Bytes, is_empty}
use Prim.Native.Nat.{ℕ}
use mathlib.Core.Path.{◌≡◌, refl, ap, ◌∙◌}
use mathlib.Core.Bool.{Bool, true, false, ◌&&◌}
use mathlib.Core.List.{[], ◌∷◌, ◌++◌}
use native.Mathlib.Omega.{arith}

unfoldable pub trim_front : (ℕ → Bool) → Bytes → Bytes
trim_front p [] = []
trim_front p (c ∷ s) = let rest = trim_front p s in if p c then rest else c ∷ s

unfoldable pub trim_back : (ℕ → Bool) → Bytes → Bytes
trim_back p [] = []
trim_back p (c ∷ s) = let rest = trim_back p s in if is_empty rest && p c then [] else c ∷ rest

unfoldable pub trim_with : (ℕ → Bool) → Bytes → Bytes
unfolding trim_front trim_back
trim_with p s = trim_back p (trim_front p s)

-- The first byte does not pass the test.
abbrev pub StartsPlain : (ℕ → Bool) → Bytes → Type 0
StartsPlain p [] = Unit
StartsPlain p (c ∷ s) = p c ≡ false

-- The last byte does not pass the test.
abbrev pub EndsPlain : (ℕ → Bool) → Bytes → Type 0
EndsPlain p [] = Unit
EndsPlain p (c ∷ []) = p c ≡ false
EndsPlain p (c ∷ d ∷ s) = EndsPlain p (d ∷ s)

abbrev pub IsTrimmed : (ℕ → Bool) → Bytes → Type 0
IsTrimmed p s = StartsPlain p s × EndsPlain p s

module _ (p : ℕ → Bool) where
  trim_front_split :
      (s : Bytes) → (lead : Bytes) × All (λ c. p c ≡ true) lead × (s ≡ lead ++ trim_front p s)
  unfolding trim_front
  trim_front_split [] = ([], tt, refl)
  trim_front_split (c ∷ s) = elim (Bool-cases (p c)) [
    | inl ws ↦ let (lead, h, e) = trim_front_split s in (c ∷ lead, (ws, h), rw ws (ap (◌∷◌ c) e))
    | inr plain ↦ ([], tt, rw plain)
  ]

  trim_front-StartsPlain : (s : Bytes) → StartsPlain p (trim_front p s)
  unfolding trim_front
  trim_front-StartsPlain [] = tt
  trim_front-StartsPlain (c ∷ s) = ground (arith, trim_front-StartsPlain s)

  trim_back_split :
      (s : Bytes) → (trail : Bytes) × All (λ c. p c ≡ true) trail × (s ≡ trim_back p s ++ trail)
  unfolding trim_back
  trim_back_split [] = ([], tt, refl)
  trim_back_split (c ∷ s) =
      let (trail, h, e) = trim_back_split s in
      elim (Bool-cases (is_empty (trim_back p s) && p c)) [
        | inl gone ↦ (c ∷ trail, (ground arith, h), rw gone (ap (◌∷◌ c) (e ∙ ground arith)))
        | inr stays ↦ (trail, h, rw stays (ap (◌∷◌ c) e))
      ]

  trim_back-EndsPlain : (s : Bytes) → EndsPlain p (trim_back p s)
  unfolding trim_back
  trim_back-EndsPlain [] = tt
  trim_back-EndsPlain (c ∷ s) = step (trim_back p s) (trim_back-EndsPlain s)
    where
      step :
          (rest : Bytes)
          → EndsPlain p rest
          → EndsPlain p (if is_empty rest && p c then [] else c ∷ rest)
      step [] h = ground arith
      step (d ∷ rest) h = h

  trim_back-StartsPlain : (s : Bytes) → StartsPlain p s → StartsPlain p (trim_back p s)
  unfolding trim_back
  trim_back-StartsPlain [] h = tt
  trim_back-StartsPlain (c ∷ s) h = ground arith

  trim_front_fixed : (s : Bytes) → StartsPlain p s → trim_front p s ≡ s
  unfolding trim_front
  trim_front_fixed [] h = refl
  trim_front_fixed (c ∷ s) h = rw h

  trim_front_padding :
      (lead s : Bytes) → All (λ c. p c ≡ true) lead → trim_front p (lead ++ s) ≡ trim_front p s
  unfolding trim_front
  trim_front_padding [] s h = refl
  trim_front_padding (c ∷ lead) s h = rw h.0 (trim_front_padding lead s h.1)

  trim_back_padding : (trail : Bytes) → All (λ c. p c ≡ true) trail → trim_back p trail ≡ []
  unfolding trim_back
  trim_back_padding [] h = refl
  trim_back_padding (c ∷ trail) h = ground (arith, trim_back_padding trail h.1)

  trim_back_fixed :
      (s trail : Bytes) → EndsPlain p s → All (λ c. p c ≡ true) trail → trim_back p (s ++ trail) ≡ s
  unfolding trim_back
  trim_back_fixed [] trail e h = trim_back_padding trail h
  trim_back_fixed (c ∷ []) trail e h = ground (arith, trim_back_padding trail h)
  trim_back_fixed (c ∷ d ∷ s) trail e h = ground (arith, trim_back_fixed (d ∷ s) trail e h)

  -- What a trim takes off passes the test, and what it leaves neither begins nor ends with such a
  -- byte.
  pub trim_with_split :
      (s : Bytes)
      → (lead : Bytes) × (trail : Bytes) × All (λ c. p c ≡ true) lead
        × All (λ c. p c ≡ true) trail
        × (s ≡ lead ++ (trim_with p s ++ trail))
        × IsTrimmed p (trim_with p s)
  unfolding trim_with
  trim_with_split s =
      let (lead, hl, el) = trim_front_split s in
      let (trail, ht, et) = trim_back_split (trim_front p s) in
      (
        lead,
        trail,
        hl,
        ht,
        el ∙ ap (◌++◌ lead) et,
        (trim_back-StartsPlain _ (trim_front-StartsPlain s), trim_back-EndsPlain (trim_front p s)),
      )

  -- A trimmed text is found again within any padding.
  pub trim_with_padded :
      (lead s trail : Bytes)
      → All (λ c. p c ≡ true) lead
      → All (λ c. p c ≡ true) trail
      → s ≢ []
      → IsTrimmed p s
      → trim_with p (lead ++ (s ++ trail)) ≡ s
  unfolding trim_with
  trim_with_padded lead [] trail hl ht some_text h = absurd (some_text refl)
  trim_with_padded lead (c ∷ s) trail hl ht some_text h =
      rw (trim_front_padding lead (c ∷ s ++ trail) hl, trim_front_fixed (c ∷ s ++ trail) h.0)
        (trim_back_fixed (c ∷ s) trail h.1 ht)
