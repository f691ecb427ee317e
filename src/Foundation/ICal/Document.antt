-- ===== src/Foundation/ICal/Document.antt =====
-- The folding loop of `GenerateImpl` over a document that is made of lines.
pub mod Contents
use server_components.Common.{
  ℕ, zero, suc, ◌+◌, ◌≤◌, ◌<◌, ◌≡◌, refl, sym, ap, ◌∙◌, ◌≢◌, Bool, true, false, Option, none, some,
  List, [], ◌∷◌, ◌++◌, arith, if◌then◌else◌, leb, ltb, min, length, length-append, take, drop, All,
  All-append, Bytes, bytes, is_empty, Without, inl, inr, Bool-cases, append_assoc, starts_with,
  take-append, ◌==◌, ◌-◌,
}
use server_components.Foundation.Text.{find_bytes}
use server_components.Foundation.ICal.{
  max_octets, crlf, put_line, put_optional, segment_size, fold_from, fold_line, fold_all,
}
use server_components.Foundation.ICal.Folding.{
  Leads, FitsLine, lines_of, lines_of-append, unfold_lines, unfold_lines-crlf,
  unfold_lines-fold_line, fold_line-FitsLine, segment_size_bounds,
}

-- A line that holds no carriage return and does not begin with the space of a continuation.
abbrev pub PlainLine : Bytes → Type 0
PlainLine l = Without 13 l × Leads l

-- Each line, ended by CR LF.
pub document : List Bytes → Bytes
document [] = []
document (l ∷ ls) = l ++ 13 ∷ 10 ∷ document ls

folded : List Bytes → Bytes
folded [] = []
folded (l ∷ ls) = fold_line l ++ 13 ∷ 10 ∷ folded ls

find_bytes-crlf :
    (l t : Bytes) → Without 13 l → find_bytes crlf (l ++ 13 ∷ 10 ∷ t) ≡ some (length l)
unfolding find_bytes starts_with
find_bytes-crlf [] t h = refl
find_bytes-crlf (c ∷ l) t (n, h) =
    let plain : (13 == c) ≡ false = ground arith in rw (plain, find_bytes-crlf l t h)

drop-line : (l t : Bytes) → drop (length l + 2) (l ++ 13 ∷ 10 ∷ t) ≡ t
drop-line [] t = refl
drop-line (c ∷ l) t =
    let next : length (c ∷ l) + 2 ≡ suc (length l + 2) = omega arith in
    ap (λ n. drop n (c ∷ l ++ 13 ∷ 10 ∷ t)) next ∙ drop-line l t

fold_all-found :
    (fuel c : ℕ) (raw : Bytes) (eol : ℕ)
    → find_bytes crlf (c ∷ raw) ≡ some eol
    → fold_all (suc fuel) (c ∷ raw)
      ≡ fold_line (take eol (c ∷ raw)) ++ (crlf ++ fold_all fuel (drop (eol + 2) (c ∷ raw)))
unfolding fold_all
fold_all-found fuel c raw eol e = cc

fold_all-line :
    (fuel : ℕ) (l t : Bytes)
    → Without 13 l
    → fold_all (suc fuel) (l ++ 13 ∷ 10 ∷ t) ≡ fold_line l ++ 13 ∷ 10 ∷ fold_all fuel t
fold_all-line fuel [] t h = fold_all-found fuel 13 (10 ∷ t) 0 (find_bytes-crlf [] t h)
fold_all-line fuel (c ∷ l) t h =
    fold_all-found fuel c (l ++ 13 ∷ 10 ∷ t) (length (c ∷ l)) (find_bytes-crlf (c ∷ l) t h)
    ∙ ap
        (λ line.
          fold_line line
          ++ (crlf ++ fold_all fuel (drop (length (c ∷ l) + 2) (c ∷ l ++ 13 ∷ 10 ∷ t))))
        (take-append (c ∷ l) (13 ∷ 10 ∷ t))
    ∙ ap (λ rest. fold_line (c ∷ l) ++ (crlf ++ fold_all fuel rest)) (drop-line (c ∷ l) t)

fold_all-document :
    (fuel : ℕ) (ls : List Bytes)
    → length (document ls) < fuel
    → All PlainLine ls
    → fold_all fuel (document ls) ≡ folded ls
unfolding document folded
fold_all-document zero ls h plain = absurd (omega arith)
fold_all-document (suc fuel) [] h plain = unfold fold_all in refl
fold_all-document (suc fuel) (l ∷ ls) h ((w, lead), plain) =
    fold_all-line fuel l (document ls) w
    ∙ ap (λ t. fold_line l ++ 13 ∷ 10 ∷ t)
        (fold_all-document fuel ls (omega (arith, length-append l (13 ∷ 10 ∷ document ls))) plain)

fold_line-Leads : (l t : Bytes) → Leads l → Leads (fold_line l ++ 13 ∷ t)
unfolding fold_line fold_from
fold_line-Leads [] t h = unfold fold_line in (λ e. absurd (omega arith))
fold_line-Leads (c ∷ l) t h = elim (Bool-cases (leb (length (c ∷ l)) max_octets)) [
  | inl short ↦ rw short h
  | inr long ↦ rw long (take-Leads (segment_size true (c ∷ l)) (segment_size_bounds true c l).0)
]
  where
    take-Leads :
        (n : ℕ)
        → 1 ≤ n
        → Leads ((take n (c ∷ l) ++ fold_from (length l) false (drop n (c ∷ l))) ++ 13 ∷ t)
    take-Leads zero pos = absurd (omega arith)
    take-Leads (suc n) pos = h

folded-Leads : (ls : List Bytes) → All PlainLine ls → Leads (folded ls)
unfolding folded
folded-Leads [] plain = tt
folded-Leads (l ∷ ls) ((w, lead), plain) = fold_line-Leads l (10 ∷ folded ls) lead

unfold_lines-folded : (ls : List Bytes) → All PlainLine ls → unfold_lines (folded ls) ≡ document ls
unfolding folded document
unfold_lines-folded [] plain = unfold unfold_lines in refl
unfold_lines-folded (l ∷ ls) ((w, lead), plain) =
    unfold_lines-fold_line l (13 ∷ 10 ∷ folded ls) w
    ∙ ap (◌++◌ l) (
        unfold_lines-crlf (folded ls) (folded-Leads ls plain)
        ∙ ap (λ t. 13 ∷ 10 ∷ t) (unfold_lines-folded ls plain))

folded-FitsLine : (ls : List Bytes) → All PlainLine ls → All FitsLine (lines_of (folded ls))
unfolding folded
folded-FitsLine [] plain = unfold lines_of in (omega arith, tt)
folded-FitsLine (l ∷ ls) ((w, lead), plain) = rw (lines_of-append (fold_line l) (folded ls)) (
    All-append _ (lines_of (fold_line l)) (lines_of (folded ls)) (fold_line-FitsLine l w)
      (folded-FitsLine ls plain))

pub IsDocument : Bytes → Type 0
IsDocument s = (ls : List Bytes) × (s ≡ document ls) × All PlainLine ls

-- Folding a document of plain lines keeps what it says and makes every physical line fit.
pub fold_all_lem :
    (s : Bytes)
    → IsDocument s
    → (unfold_lines (fold_all (suc (length s)) s) ≡ s)
      × All FitsLine (lines_of (fold_all (suc (length s)) s))
unfolding IsDocument
fold_all_lem s (ls, e, plain) =
    let run : fold_all (suc (length s)) s ≡ folded ls =
      ap (fold_all (suc (length s))) e
      ∙ fold_all-document (suc (length s)) ls (rw e (omega arith)) plain in
    rw run (unfold_lines-folded ls plain ∙ sym e, folded-FitsLine ls plain)

document-append : (ls ms : List Bytes) → document (ls ++ ms) ≡ document ls ++ document ms
unfolding document
document-append [] ms = refl
document-append (l ∷ ls) ms =
    ap (λ t. l ++ 13 ∷ 10 ∷ t) (document-append ls ms)
    ∙ sym (append_assoc l (13 ∷ 10 ∷ document ls) (document ms))

pub IsDocument-append : (s t : Bytes) → IsDocument s → IsDocument t → IsDocument (s ++ t)
unfolding IsDocument
IsDocument-append s t (ls, e, p) (ms, d, q) =
    (ls ++ ms, rw (e, d) (sym (document-append ls ms)), All-append _ ls ms p q)

pub IsDocument-nil : IsDocument []
unfolding IsDocument document
IsDocument-nil = ([], refl, tt)

pub IsDocument-line : (l : Bytes) → PlainLine l → IsDocument (put_line l)
unfolding IsDocument document
IsDocument-line l p = (l ∷ [], refl, (p, tt))

pub IsDocument-optional : (field l : Bytes) → PlainLine l → IsDocument (put_optional field l)
IsDocument-optional [] l p = IsDocument-nil
IsDocument-optional (c ∷ field) l p = IsDocument-line l p
