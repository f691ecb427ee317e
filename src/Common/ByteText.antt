-- ===== src/Common/ByteText.antt =====
-- Text as the code walks it: a `std::string` or a `std::string_view` is the list of its bytes.
use Prim.Native.Char.{code}
use Prim.Native.Nat.{ℕ, zero, suc}
use Prim.Native.String.{String}
use mathlib.Core.Path.{◌≡◌, refl, ap}
use mathlib.Core.Logic.{◌↔◌, ◌≢◌}
use mathlib.Core.Bool.{Bool, true, false, ◌&&◌}
use mathlib.Core.Option
use mathlib.Core.Option.{Option, none, some}
use mathlib.Core.List.{List, [], ◌∷◌, ◌++◌}
use native.Mathlib.Omega.{arith}
use server_components.Common.Tests.{◌==◌, if◌then◌else◌}
use server_components.Common.Lists.{All, length, take, drop}

abbrev pub Bytes : Type 0
Bytes = List ℕ

-- The bytes of an ASCII literal.
abbrev pub bytes : String → Bytes
bytes String.[] = []
bytes (String.◌∷◌ c s) = code c ∷ bytes s

-- `s.empty()`
abbrev pub is_empty {ℓ} : {A : Type ℓ} → List A → Bool
is_empty [] = true
is_empty (x ∷ xs) = false

-- `a == b` on strings.
unfoldable pub bytes_eq : Bytes → Bytes → Bool
bytes_eq [] [] = true
bytes_eq (a ∷ as₁) (b ∷ bs) = a == b && bytes_eq as₁ bs
bytes_eq _ _ = false

pub bytes_eq_iff : (a b : Bytes) → (bytes_eq a b ≡ true) ↔ (a ≡ b)
unfolding bytes_eq
bytes_eq_iff [] [] = ground arith
bytes_eq_iff [] (b ∷ bs) = ground arith
bytes_eq_iff (a ∷ as₁) [] = ground arith
bytes_eq_iff (a ∷ as₁) (b ∷ bs) = ground (arith, bytes_eq_iff as₁ bs)

pub bytes_eq_refl : (a : Bytes) → bytes_eq a a ≡ true
bytes_eq_refl a = (bytes_eq_iff a a).1 refl

-- `s.compare(0, p.size(), p) == 0` with the size test, and `s.rfind(p, 0) == 0`.
unfoldable pub starts_with : Bytes → Bytes → Bool
starts_with [] s = true
starts_with (c ∷ p) [] = false
starts_with (c ∷ p) (d ∷ s) = c == d && starts_with p s

pub starts_with_append : (p s : Bytes) → starts_with p (p ++ s) ≡ true
unfolding starts_with
starts_with_append [] s = refl
starts_with_append (c ∷ p) s = ground (arith, starts_with_append p s)

pub starts_with_split : (p s : Bytes) → starts_with p s ≡ true → p ++ drop (length p) s ≡ s
unfolding starts_with
starts_with_split [] s h = refl
starts_with_split (c ∷ p) [] h = cc
starts_with_split (c ∷ p) (d ∷ s) h = ground (arith, starts_with_split p s)

-- `s.find(c)`: the first place of a byte.
unfoldable pub find_byte : ℕ → Bytes → Option ℕ
find_byte c [] = none
find_byte c (d ∷ s) = let rest = Option.map suc (find_byte c s) in if d == c then some 0 else rest

abbrev pub Without : ℕ → Bytes → Type 0
Without c s = All (λ d. d ≢ c) s

-- What `find` found: the text is cut at the byte, and the byte does not stand before it.
pub find_byte_found :
    (c : ℕ) (s : Bytes) {i : ℕ}
    → find_byte c s ≡ some i
    → (take i s ++ c ∷ drop (suc i) s ≡ s) × Without c (take i s)
unfolding find_byte
find_byte_found c [] h = cc
find_byte_found c (d ∷ s) {i = zero} h = ground (arith, find_byte c s)
find_byte_found c (d ∷ s) {i = suc i} h = ground (arith, find_byte_found c s {i = i})

pub find_byte_missing : (c : ℕ) (s : Bytes) → find_byte c s ≡ none → Without c s
unfolding find_byte
find_byte_missing c [] h = tt
find_byte_missing c (d ∷ s) h = ground (arith, find_byte_missing c s)

pub find_byte-none : (c : ℕ) (s : Bytes) → Without c s → find_byte c s ≡ none
unfolding find_byte
find_byte-none c [] h = refl
find_byte-none c (d ∷ s) h = ground (arith, find_byte-none c s h.1)

pub find_byte_at : (c : ℕ) (s t : Bytes) → Without c s → find_byte c (s ++ c ∷ t) ≡ some (length s)
unfolding find_byte
find_byte_at c [] t h = ground arith
find_byte_at c (d ∷ s) t h = ground (arith, find_byte_at c s t h.1)

pub take-append : (s t : Bytes) → take (length s) (s ++ t) ≡ s
take-append [] t = refl
take-append (c ∷ s) t = ap (◌∷◌ c) (take-append s t)

pub drop-append : (s t : Bytes) → drop (length s) (s ++ t) ≡ t
drop-append [] t = refl
drop-append (c ∷ s) t = drop-append s t
