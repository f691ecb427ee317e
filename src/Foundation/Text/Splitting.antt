-- ===== src/Foundation/Text/Splitting.antt =====
-- `SplitString` cuts at the first place of the delimiter.
use server_components.Common.{
  ℕ, zero, suc, ◌+◌, ◌≡◌, refl, ap, ◌≢◌, ◌⊎◌, inl, inr, true, false, none, some, [], ◌∷◌, ◌++◌,
  arith, length, take, drop, Bytes, starts_with, starts_with_split, Option-cases,
}
use server_components.Foundation.Text.{find_bytes, split_string}

-- The delimiter stands nowhere in a text.
abbrev pub Lacks : Bytes → Bytes → Type 0
Lacks delimiter [] = starts_with delimiter [] ≡ false
Lacks delimiter (c ∷ s) = (starts_with delimiter (c ∷ s) ≡ false) × Lacks delimiter s

-- The delimiter stands at no place of `left ++ rest` that lies in `left`.
abbrev pub LacksBefore : Bytes → Bytes → Bytes → Type 0
LacksBefore delimiter [] rest = Unit
LacksBefore delimiter (c ∷ left) rest =
    (starts_with delimiter (c ∷ left ++ rest) ≡ false) × LacksBefore delimiter left rest

find_bytes-zero :
    (d : Bytes) (c : ℕ) (s : Bytes) → find_bytes d (c ∷ s) ≡ some 0 → starts_with d (c ∷ s) ≡ true
unfolding find_bytes
find_bytes-zero d c s h = ground (arith, find_bytes d s)

find_bytes-suc :
    (d : Bytes) (c : ℕ) (s : Bytes) (i : ℕ)
    → find_bytes d (c ∷ s) ≡ some (suc i)
    → (starts_with d (c ∷ s) ≡ false) × (find_bytes d s ≡ some i)
unfolding find_bytes
find_bytes-suc d c s i h = ground arith

find_bytes_found :
    (d s : Bytes) (i : ℕ)
    → d ≢ []
    → find_bytes d s ≡ some i
    → (take i s ++ (d ++ drop (i + length d) s) ≡ s)
      × LacksBefore d (take i s) (d ++ drop (i + length d) s)
find_bytes_found [] s i n h = absurd (n refl)
find_bytes_found (e ∷ d) [] i n h = absurd (find_bytes_nil e d i h)
  where
    find_bytes_nil : (e : ℕ) (d : Bytes) (i : ℕ) → find_bytes (e ∷ d) [] ≢ some i
    find_bytes_nil e d i h = unfold find_bytes in (cc h)
find_bytes_found (e ∷ d) (c ∷ s) zero n h =
    let same : 0 + length (e ∷ d) ≡ length (e ∷ d) = omega arith in
    (rw same (starts_with_split (e ∷ d) (c ∷ s) (find_bytes-zero (e ∷ d) c s h)), tt)
find_bytes_found (e ∷ d) (c ∷ s) (suc i) n h =
    let (miss, later) = find_bytes-suc (e ∷ d) c s i h in
    let (cut, before) = find_bytes_found (e ∷ d) s i n later in
    let shift : suc i + length (e ∷ d) ≡ suc (i + length (e ∷ d)) = omega arith in
    (rw shift (ap (◌∷◌ c) cut), (rw (shift, cut) miss, rw shift before))

find_bytes_missing : (d s : Bytes) → find_bytes d s ≡ none → d ≢ [] → Lacks d s
unfolding find_bytes
find_bytes_missing [] s h n = absurd (n refl)
find_bytes_missing (e ∷ d) [] h n = unfold starts_with in refl
find_bytes_missing (e ∷ d) (c ∷ s) h n =
    (ground arith, find_bytes_missing (e ∷ d) s (ground arith) n)

-- With a delimiter that is not empty, either it does not occur and the whole text is the left part,
-- or the two parts are what stands before and after its first occurrence.
pub split_string_lem :
    (str delimiter : Bytes)
    → delimiter ≢ []
    → let (left, right) = split_string str delimiter in
      Lacks delimiter str × (left ≡ str) × (right ≡ [])
      ⊎ (left ++ (delimiter ++ right) ≡ str) × LacksBefore delimiter left (delimiter ++ right)
unfolding split_string
split_string_lem str [] n = absurd (n refl)
split_string_lem str (e ∷ d) n = elim (Option-cases (find_bytes (e ∷ d) str)) [
  | inl missing ↦ inl (
    find_bytes_missing (e ∷ d) str missing n,
    rw (missing, split_string),
    rw (missing, split_string),
  )
  | inr (i, found) ↦ inr (rw (found, split_string) (find_bytes_found (e ∷ d) str i n found))
]
