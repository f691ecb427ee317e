-- ===== src/Foundation/ICal/Folding.antt =====
-- `FoldLine`: unfolding gives the line back, and no physical line has more than 75 octets.
use server_components.Common.{
  ℕ, zero, suc, ◌-◌, ◌≤◌, ◌≡◌, refl, sym, ap, ◌∙◌, ◌≢◌, Bool, true, false, ◌&&◌, List, [], ◌∷◌,
  ◌++◌, arith, if◌then◌else◌, leb, ◌==◌, min, length, length-drop, length-take, take, drop,
  take-append-drop, All, All-take, All-drop, Bytes, Without, inl, inr, Bool-cases, append_assoc,
  append-nil,
}
use server_components.Foundation.ICal.{
  back_off, max_octets, budget, segment_size, fold_from, fold_line,
}

back_off-le : (rest : Bytes) (n : ℕ) → back_off rest n ≤ n
unfolding back_off
back_off-le rest zero = omega arith
back_off-le rest (suc n) = ground (arith, back_off-le rest n)

-- A segment is not empty, fits its budget and does not go past the end.
pub segment_size_bounds :
    (first : Bool) (c : ℕ) (s : Bytes)
    → let n = segment_size first (c ∷ s) in (1 ≤ n) × (n ≤ budget first) × (n ≤ length (c ∷ s))
unfolding segment_size
segment_size_bounds true c s = ground (arith, back_off-le (c ∷ s) (min max_octets (length (c ∷ s))))
segment_size_bounds false c s =
    ground (arith, back_off-le (c ∷ s) (min (max_octets - 1) (length (c ∷ s))))

-- Removes every CR LF that a space follows.
unfoldable pub unfold_lines : Bytes → Bytes
unfold_lines [] = []
unfold_lines (c ∷ []) = c ∷ []
unfold_lines (c ∷ d ∷ []) = c ∷ d ∷ []
unfold_lines (c ∷ d ∷ e ∷ s) =
    let plain = c ∷ unfold_lines (d ∷ e ∷ s) in
    let mark = unfold_lines s in if c == 13 && d == 10 && e == b' ' then mark else plain

unfold_lines-cons : (c : ℕ) (s : Bytes) → c ≢ 13 → unfold_lines (c ∷ s) ≡ c ∷ unfold_lines s
unfolding unfold_lines
unfold_lines-cons c [] n = refl
unfold_lines-cons c (d ∷ []) n = refl
unfold_lines-cons c (d ∷ e ∷ s) n = ground arith

unfold_lines-Without : (s t : Bytes) → Without 13 s → unfold_lines (s ++ t) ≡ s ++ unfold_lines t
unfold_lines-Without [] t h = refl
unfold_lines-Without (c ∷ s) t (n, h) =
    unfold_lines-cons c (s ++ t) n ∙ ap (◌∷◌ c) (unfold_lines-Without s t h)

unfold_lines-mark :
    (first : Bool) (t : Bytes)
    → unfold_lines ((if first then [] else 13 ∷ 10 ∷ b' ' ∷ []) ++ t) ≡ unfold_lines t
unfolding unfold_lines
unfold_lines-mark true t = refl
unfold_lines-mark false t = refl

-- A line end that no space follows is kept.
abbrev pub Leads : Bytes → Type 0
Leads [] = Unit
Leads (c ∷ s) = c ≢ b' '

pub unfold_lines-crlf :
    (t : Bytes) → Leads t → unfold_lines (13 ∷ 10 ∷ t) ≡ 13 ∷ 10 ∷ unfold_lines t
unfolding unfold_lines
unfold_lines-crlf [] h = refl
unfold_lines-crlf (c ∷ t) h =
    let other : (c == b' ') ≡ false = ground arith in
    rw other (ap (◌∷◌ 13) (unfold_lines-cons 10 (c ∷ t) (omega arith)))

unfold_lines-fold_from :
    (fuel : ℕ) (first : Bool) (rest t : Bytes)
    → length rest ≤ fuel
    → Without 13 rest
    → unfold_lines (fold_from fuel first rest ++ t) ≡ rest ++ unfold_lines t
unfolding fold_from
unfold_lines-fold_from zero first [] t h w = refl
unfold_lines-fold_from zero first (c ∷ s) t h w = absurd (omega arith)
unfold_lines-fold_from (suc fuel) first [] t h w = refl
unfold_lines-fold_from (suc fuel) first (c ∷ s) t h w =
    let n = segment_size first (c ∷ s) in
    let mark : Bytes = if first then [] else 13 ∷ 10 ∷ b' ' ∷ [] in
    let segment = take n (c ∷ s) in
    let more = fold_from fuel false (drop n (c ∷ s)) in
    let shorter : length (drop n (c ∷ s)) ≤ fuel =
      omega (arith, length-drop n (c ∷ s), segment_size_bounds first c s) in
    ap unfold_lines (append_assoc mark (segment ++ more) t)
    ∙ unfold_lines-mark first ((segment ++ more) ++ t)
    ∙ ap unfold_lines (append_assoc segment more t)
    ∙ unfold_lines-Without segment (more ++ t) (All-take _ n (c ∷ s) w)
    ∙ ap (◌++◌ segment)
        (unfold_lines-fold_from fuel false (drop n (c ∷ s)) t shorter (All-drop _ n (c ∷ s) w))
    ∙ sym (append_assoc segment (drop n (c ∷ s)) (unfold_lines t))
    ∙ ap (λ l. l ++ unfold_lines t) (take-append-drop n (c ∷ s))

-- The lines of a text, which CR LF separates.
abbrev add_byte : ℕ → List Bytes → List Bytes
add_byte c [] = (c ∷ []) ∷ []
add_byte c (l ∷ ls) = (c ∷ l) ∷ ls

unfoldable pub lines_of : Bytes → List Bytes
lines_of [] = [] ∷ []
lines_of (c ∷ []) = (c ∷ []) ∷ []
lines_of (c ∷ d ∷ s) =
    let next = [] ∷ lines_of s in
    let same = add_byte c (lines_of (d ∷ s)) in if c == 13 && d == 10 then next else same

pub lines_of-line : (l t : Bytes) → Without 13 l → lines_of (l ++ 13 ∷ 10 ∷ t) ≡ l ∷ lines_of t
unfolding lines_of
lines_of-line [] t h = refl
lines_of-line (c ∷ []) t (n, h) = let plain : (c == 13) ≡ false = ground arith in rw plain
lines_of-line (c ∷ d ∷ l) t (n, h) =
    let plain : (c == 13) ≡ false = ground arith in
    rw plain (ap (add_byte c) (lines_of-line (d ∷ l) t h))

pub lines_of-last : (l : Bytes) → Without 13 l → lines_of l ≡ l ∷ []
unfolding lines_of
lines_of-last [] h = refl
lines_of-last (c ∷ []) h = refl
lines_of-last (c ∷ d ∷ l) (n, h) =
    let plain : (c == 13) ≡ false = ground arith in
    rw plain (ap (add_byte c) (lines_of-last (d ∷ l) h))

abbrev pub FitsLine : Bytes → Type 0
FitsLine l = length l ≤ max_octets

-- Behind a physical line that fits, the loop adds only lines that fit. The text after is what follows
-- the folded line in the document.
fold_from-FitsLine :
    (fuel : ℕ) (l rest : Bytes)
    → Without 13 l
    → Without 13 rest
    → FitsLine l
    → All FitsLine (lines_of (l ++ fold_from fuel false rest))
unfolding fold_from
fold_from-FitsLine zero l rest hl hr fits = rw (append-nil l, lines_of-last l hl) (fits, tt)
fold_from-FitsLine (suc fuel) l [] hl hr fits = rw (append-nil l, lines_of-last l hl) (fits, tt)
fold_from-FitsLine (suc fuel) l (c ∷ s) hl hr fits =
    let n = segment_size false (c ∷ s) in
    let segment = b' ' ∷ take n (c ∷ s) in
    let size : FitsLine segment =
      omega (arith, length-take n (c ∷ s), segment_size_bounds false c s) in
    rw (lines_of-line l (segment ++ fold_from fuel false (drop n (c ∷ s))) hl) (
      fits,
      fold_from-FitsLine fuel segment (drop n (c ∷ s))
          ((λ e. absurd (omega arith)), All-take _ n (c ∷ s) hr) (All-drop _ n (c ∷ s) hr) size,
    )

fold_from_first-FitsLine :
    (fuel : ℕ) (rest : Bytes) → Without 13 rest → All FitsLine (lines_of (fold_from fuel true rest))
unfolding fold_from
fold_from_first-FitsLine zero rest h = rw (lines_of-last [] tt) (omega arith)
fold_from_first-FitsLine (suc fuel) [] h = rw (lines_of-last [] tt) (omega arith)
fold_from_first-FitsLine (suc fuel) (c ∷ s) h =
    let n = segment_size true (c ∷ s) in
    fold_from-FitsLine fuel (take n (c ∷ s)) (drop n (c ∷ s)) (All-take _ n (c ∷ s) h)
      (All-drop _ n (c ∷ s) h) (omega (arith, length-take n (c ∷ s), segment_size_bounds true c s))

pub unfold_lines-fold_line :
    (line t : Bytes) → Without 13 line → unfold_lines (fold_line line ++ t) ≡ line ++ unfold_lines t
unfolding fold_line
unfold_lines-fold_line line t w = elim (Bool-cases (leb (length line) max_octets)) [
  | inl short ↦ rw short (unfold_lines-Without line t w)
  | inr long ↦ rw long (unfold_lines-fold_from (length line) true line t (omega arith) w)
]

pub fold_line-FitsLine : (line : Bytes) → Without 13 line → All FitsLine (lines_of (fold_line line))
unfolding fold_line
fold_line-FitsLine line w = elim (Bool-cases (leb (length line) max_octets)) [
  | inl short ↦ rw (short, lines_of-last line w) (ground arith, tt)
  | inr long ↦ rw long (fold_from_first-FitsLine (length line) line w)
]

-- For a line without carriage returns: unfolding gives it back, and every physical line that it is
-- folded into has at most 75 octets, the leading space of a continuation counted.
pub fold_line_lem :
    (line : Bytes)
    → Without 13 line
    → (unfold_lines (fold_line line) ≡ line) × All FitsLine (lines_of (fold_line line))
fold_line_lem line w = (
  ap unfold_lines (sym (append-nil (fold_line line)))
      ∙ unfold_lines-fold_line line [] w
      ∙ unfold unfold_lines in append-nil line,
  fold_line-FitsLine line w,
)

add_byte-append :
    (c : ℕ) (ls more : List Bytes) → ls ≢ [] → add_byte c (ls ++ more) ≡ add_byte c ls ++ more
add_byte-append c [] more n = absurd (n refl)
add_byte-append c (l ∷ ls) more n = refl

lines_of-ne-nil : (s : Bytes) → lines_of s ≢ []
unfolding lines_of
lines_of-ne-nil [] = λ e. cc
lines_of-ne-nil (c ∷ []) = λ e. cc
lines_of-ne-nil (c ∷ d ∷ s) = elim (Bool-cases (c == 13 && d == 10)) [
  | inl end ↦ rw end (λ e. cc)
  | inr other ↦ rw other (add_byte-ne-nil (lines_of (d ∷ s)))
]
  where
    add_byte-ne-nil : (ls : List Bytes) → add_byte c ls ≢ []
    add_byte-ne-nil [] e = cc
    add_byte-ne-nil (l ∷ ls) e = cc

pub lines_of-append : (s t : Bytes) → lines_of (s ++ 13 ∷ 10 ∷ t) ≡ lines_of s ++ lines_of t
unfolding lines_of
lines_of-append [] t = refl
lines_of-append (c ∷ []) t = ground arith
lines_of-append (c ∷ d ∷ s) t = elim (Bool-cases (c == 13 && d == 10)) [
  | inl end ↦ rw end (ap (◌∷◌ []) (lines_of-append s t))
  | inr other ↦ rw other (
      ap (add_byte c) (lines_of-append (d ∷ s) t)
      ∙ add_byte-append c (lines_of (d ∷ s)) (lines_of t) (lines_of-ne-nil (d ∷ s)))
]
