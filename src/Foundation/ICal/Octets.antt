-- ===== src/Foundation/ICal/Octets.antt =====
-- `FoldLine` never cuts a character of UTF-8 in two.
use server_components.Common.{
  ℕ, zero, suc, ◌-◌, ◌≤◌, ◌<◌, ◌≡◌, refl, ap, ◌∙◌, inl, inr, Bool, true, false, List, [], ◌∷◌, ◌++◌,
  arith, if◌then◌else◌, leb, ltb, ◌==◌, min, length, length-drop, take, drop, take-append-drop, All,
  Bytes, Bool-cases,
}
use server_components.Foundation.ICal.{
  is_continuation, byte_at, back_off, max_octets, budget, segment_size, fold_from, fold_line,
}
use server_components.Foundation.ICal.Folding.{segment_size_bounds}

-- At most three continuation bytes follow one another, as in UTF-8; so many have just been read.
abbrev pub CharRuns : ℕ → Bytes → Type 0
CharRuns n [] = Unit
CharRuns n (c ∷ s) = elim (is_continuation c) [
  | true ↦ (n < 3) × CharRuns (suc n) s
  | false ↦ CharRuns 0 s
]

-- The text begins with a character, not in the middle of one.
abbrev pub StartsCharacter : Bytes → Type 0
StartsCharacter [] = Unit
StartsCharacter (c ∷ s) = is_continuation c ≡ false

CharRuns-reset : (n : ℕ) (s : Bytes) → StartsCharacter s → CharRuns n s → CharRuns 0 s
CharRuns-reset n [] h r = tt
CharRuns-reset n (c ∷ s) h r = ground arith

CharRuns-drop : (n i : ℕ) (s : Bytes) → CharRuns n s → (m : ℕ) × CharRuns m (drop i s)
CharRuns-drop n zero s r = (n, r)
CharRuns-drop n (suc i) [] r = (n, tt)
CharRuns-drop n (suc i) (c ∷ s) r = elim (Bool-cases (is_continuation c)) [
  | inl inside ↦ CharRuns-drop (suc n) i s (ground arith)
  | inr start ↦ CharRuns-drop 0 i s (ground arith)
]

is_continuation-zero : is_continuation 0 ≡ false
unfolding is_continuation
is_continuation-zero = refl

-- Four continuation bytes in a row do not occur.
four_in_a_row :
    (n i : ℕ) (s : Bytes)
    → CharRuns n s
    → is_continuation (byte_at s i) ≡ true
    → is_continuation (byte_at s (suc i)) ≡ true
    → is_continuation (byte_at s (suc (suc i))) ≡ true
    → is_continuation (byte_at s (suc (suc (suc i)))) ≡ true
    → ⊥
four_in_a_row n i [] r a b c d = cc is_continuation-zero
four_in_a_row n zero (x ∷ []) r a b c d = cc is_continuation-zero
four_in_a_row n zero (x ∷ y ∷ []) r a b c d = cc is_continuation-zero
four_in_a_row n zero (x ∷ y ∷ z ∷ []) r a b c d = cc is_continuation-zero
four_in_a_row n zero (x ∷ y ∷ z ∷ w ∷ s) r a b c d = ground arith
four_in_a_row n (suc i) (x ∷ s) r a b c d = elim (Bool-cases (is_continuation x)) [
  | inl inside ↦ four_in_a_row (suc n) i s (ground arith) a b c d
  | inr start ↦ four_in_a_row 0 i s (ground arith) a b c d
]

-- So backing off ends within three steps, at the start of a character.
back_off_lem :
    (k m : ℕ) (rest : Bytes)
    → CharRuns k rest
    → let t = back_off rest (suc (suc (suc (suc m)))) in
      (suc m ≤ t) × (is_continuation (byte_at rest t) ≡ false)
unfolding back_off
back_off_lem k m rest r = ground (
  arith,
  λ (a : is_continuation (byte_at rest (suc m)) ≡ true)
        (b : is_continuation (byte_at rest (suc (suc m))) ≡ true)
        (c : is_continuation (byte_at rest (suc (suc (suc m)))) ≡ true)
        (d : is_continuation (byte_at rest (suc (suc (suc (suc m))))) ≡ true).
      four_in_a_row k (suc m) rest r a b c d,
)

starts_of_byte :
    (n : ℕ) (s : Bytes) → is_continuation (byte_at s n) ≡ false → StartsCharacter (drop n s)
starts_of_byte zero [] h = tt
starts_of_byte zero (c ∷ s) h = h
starts_of_byte (suc n) [] h = tt
starts_of_byte (suc n) (c ∷ s) h = starts_of_byte n s h

drop_all : (n : ℕ) (s : Bytes) → length s ≤ n → drop n s ≡ []
drop_all zero [] h = refl
drop_all zero (c ∷ s) h = absurd (omega arith)
drop_all (suc n) [] h = refl
drop_all (suc n) (c ∷ s) h = drop_all n s (omega arith)

-- What a segment leaves begins with a character.
segment_size-StartsCharacter :
    (k : ℕ) (first : Bool) (rest : Bytes)
    → CharRuns k rest
    → StartsCharacter (drop (segment_size first rest) rest)
unfolding segment_size
segment_size-StartsCharacter k first rest r = elim (Bool-cases (ltb (budget first) (length rest))) [
  | inl long ↦
      let m = budget first - 4 in
      let large : 4 ≤ budget first = budget_large first in
      let four : min (budget first) (length rest) ≡ suc (suc (suc (suc m))) = ground arith in
      let found = back_off_lem k m rest r in
      let below : ltb (suc (suc (suc (suc m)))) (length rest) ≡ true = ground arith in
      let positive : (back_off rest (suc (suc (suc (suc m)))) == 0) ≡ false = ground arith in
      rw (four, below, positive) (starts_of_byte _ rest found.1)
  | inr short ↦
      let all_of_it : min (budget first) (length rest) ≡ length rest = ground arith in
      let stays : ltb (length rest) (length rest) ≡ false = ground arith in
      rw (all_of_it, stays, drop_all (length rest) rest (omega arith)) tt
]
  where
    budget_large : (b : Bool) → 4 ≤ budget b
    budget_large true = omega arith
    budget_large false = omega arith

-- The segments that the loop cuts a line into.
pub segments_from : ℕ → Bool → Bytes → List Bytes
segments_from zero first rest = []
segments_from (suc fuel) first [] = []
segments_from (suc fuel) first (c ∷ s) =
    let n = segment_size first (c ∷ s) in take n (c ∷ s) ∷ segments_from fuel false (drop n (c ∷ s))

-- A folded line: each segment but the first follows a CR LF and a space.
abbrev pub join_segments : Bool → List Bytes → Bytes
join_segments first [] = []
join_segments first (l ∷ ls) =
    (if first then [] else 13 ∷ 10 ∷ b' ' ∷ []) ++ (l ++ join_segments false ls)

abbrev pub concat_segments : List Bytes → Bytes
concat_segments [] = []
concat_segments (l ∷ ls) = l ++ concat_segments ls

segments_from_lem :
    (fuel : ℕ) (first : Bool) (rest : Bytes)
    → length rest ≤ fuel
    → StartsCharacter rest
    → CharRuns 0 rest
    → (fold_from fuel first rest ≡ join_segments first (segments_from fuel first rest))
      × (concat_segments (segments_from fuel first rest) ≡ rest)
      × All StartsCharacter (segments_from fuel first rest)
unfolding fold_from segments_from
segments_from_lem zero first [] h b r = (refl, refl, tt)
segments_from_lem zero first (c ∷ s) h b r = absurd (omega arith)
segments_from_lem (suc fuel) first [] h b r = (refl, refl, tt)
segments_from_lem (suc fuel) first (c ∷ s) h b r =
    let n = segment_size first (c ∷ s) in
    let bounds = segment_size_bounds first c s in
    let shorter : length (drop n (c ∷ s)) ≤ fuel = omega (arith, length-drop n (c ∷ s)) in
    let starts = segment_size-StartsCharacter 0 first (c ∷ s) r in
    let (m, runs) = CharRuns-drop 0 n (c ∷ s) r in
    let (joined, whole, good) =
      segments_from_lem fuel false (drop n (c ∷ s)) shorter starts
        (CharRuns-reset m (drop n (c ∷ s)) starts runs) in
    (
      ap (λ t. (if first then [] else 13 ∷ 10 ∷ b' ' ∷ []) ++ (take n (c ∷ s) ++ t)) joined,
      ap (◌++◌ (take n (c ∷ s))) whole ∙ take-append-drop n (c ∷ s),
      (first_byte n c s bounds.0 b, good),
    )
  where
    first_byte :
        (n c : ℕ) (s : Bytes) → 1 ≤ n → is_continuation c ≡ false → StartsCharacter (take n (c ∷ s))
    first_byte zero c s h b = tt
    first_byte (suc n) c s h b = b

-- A line of UTF-8 that is longer than 75 octets is cut into segments that make up the line, each of
-- which begins with a whole character; the folded line is these segments, joined by CR LF and a space.
pub fold_line-StartsCharacter :
    (line : Bytes)
    → max_octets < length line
    → StartsCharacter line
    → CharRuns 0 line
    → (segments : List Bytes) × (fold_line line ≡ join_segments true segments)
      × (concat_segments segments ≡ line)
      × All StartsCharacter segments
unfolding fold_line
fold_line-StartsCharacter line long b r =
    let folds : leb (length line) max_octets ≡ false = ground arith in
    let (joined, whole, good) = segments_from_lem (length line) true line (omega arith) b r in
    (segments_from (length line) true line, rw folds joined, whole, good)
