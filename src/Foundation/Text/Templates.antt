-- ===== src/Foundation/Text/Templates.antt =====
-- `FormatString` of components/foundation/util/types.cpp: templates as lists of literal texts and placeholders.
use server_components.Common.{
  ℕ, suc, ◌-◌, ◌≡◌, refl, sym, ap, ◌∙◌, subst, false, inl, inr, Option, none, some, List, [], ◌∷◌,
  ◌++◌, if◌then◌else◌, arith, append_assoc, length, Bytes, bytes, bytes_eq, bytes_eq_iff,
  starts_with, Without, Bool-cases,
}
use server_components.Foundation.Text.{replace_from, format_string}

pub data Piece : Type 0 where
  literal : Bytes → Piece
  column : Bytes → Piece

abbrev pub placeholder : Bytes → Bytes
placeholder key = bytes "{" ++ (key ++ bytes "}")

abbrev pub template : List Piece → Bytes
template [] = []
template (literal s ∷ pieces) = s ++ template pieces
template (column key ∷ pieces) = b'{' ∷ (key ++ b'}' ∷ template pieces)

abbrev pub IsName : Bytes → Type 0
IsName key = Without b'{' key × Without b'}' key

-- Texts hold no opening brace, and names no brace.
abbrev pub IsClean : List Piece → Type 0
IsClean [] = Unit
IsClean (literal s ∷ pieces) = Without b'{' s × IsClean pieces
IsClean (column key ∷ pieces) = IsName key × IsClean pieces

-- The pieces with one placeholder filled.
abbrev pub fill : Bytes → Bytes → List Piece → List Piece
fill key value [] = []
fill key value (literal s ∷ pieces) = literal s ∷ fill key value pieces
fill key value (column name ∷ pieces) =
    (if bytes_eq key name then literal value else column name) ∷ fill key value pieces

-- The bytes of a placeholder that was found are dropped.
replace_from-skip :
    (p value dropped rest : Bytes)
    → replace_from (length dropped) p value (dropped ++ rest) ≡ replace_from 0 p value rest
unfolding replace_from
replace_from-skip p value [] rest = refl
replace_from-skip p value (c ∷ dropped) rest = replace_from-skip p value dropped rest

starts_with-name :
    (key name rest : Bytes)
    → Without b'}' key
    → Without b'}' name
    → starts_with (key ++ bytes "}") (name ++ b'}' ∷ rest) ≡ bytes_eq key name
unfolding starts_with bytes_eq
starts_with-name [] [] rest hk hn = refl
starts_with-name [] (d ∷ name) rest hk hn = ground arith
starts_with-name (c ∷ key) [] rest hk hn = ground arith
starts_with-name (c ∷ key) (d ∷ name) rest hk hn =
    ground (arith, starts_with-name key name rest hk.1 hn.1)

suc_pred : (n : ℕ) → suc n - 1 ≡ n
suc_pred n = omega arith

module _ (key value : Bytes) where
  replace_from-nil : replace_from 0 (placeholder key) value [] ≡ []
  unfolding replace_from
  replace_from-nil = refl

  -- A text without opening braces is copied.
  replace_from-text :
      (s rest : Bytes)
      → Without b'{' s
      → replace_from 0 (placeholder key) value (s ++ rest)
        ≡ s ++ replace_from 0 (placeholder key) value rest
  unfolding replace_from starts_with
  replace_from-text [] rest h = refl
  replace_from-text (c ∷ s) rest h = ground (arith, replace_from-text s rest h.1)

  replace_from-hit :
      (rest : Bytes)
      → Without b'}' key
      → replace_from 0 (placeholder key) value (b'{' ∷ (key ++ b'}' ∷ rest))
        ≡ value ++ replace_from 0 (placeholder key) value rest
  unfolding replace_from starts_with
  replace_from-hit rest h =
      rw
        (
          starts_with-name key key rest h h,
          (bytes_eq_iff key key).1 refl,
          suc_pred (length (key ++ bytes "}")),
        )
        (ap (λ later. value ++ later)
          (subst
            (λ (text : Bytes).
              replace_from (length (key ++ bytes "}")) (placeholder key) value text
              ≡ replace_from 0 (placeholder key) value rest)
            (append_assoc key (bytes "}") rest)
            (replace_from-skip (placeholder key) value (key ++ bytes "}") rest)))

  replace_from-miss :
      (name rest : Bytes)
      → Without b'}' key
      → IsName name
      → bytes_eq key name ≡ false
      → replace_from 0 (placeholder key) value (b'{' ∷ (name ++ b'}' ∷ rest))
        ≡ b'{' ∷ (name ++ b'}' ∷ replace_from 0 (placeholder key) value rest)
  unfolding replace_from starts_with
  replace_from-miss name rest h hn e =
      rw (starts_with-name key name rest h hn.1, e)
        (ap (◌∷◌ b'{') (replace_from-text name (b'}' ∷ rest) hn.0))

  replace_from-fill :
      (pieces : List Piece)
      → Without b'}' key
      → IsClean pieces
      → replace_from 0 (placeholder key) value (template pieces) ≡ template (fill key value pieces)
  replace_from-fill [] h clean = replace_from-nil
  replace_from-fill (literal s ∷ pieces) h clean =
      replace_from-text s (template pieces) clean.0
      ∙ ap (λ rest. s ++ rest) (replace_from-fill pieces h clean.1)
  replace_from-fill (column name ∷ pieces) h clean = elim (Bool-cases (bytes_eq key name)) [
    | inl same ↦
        rw (same, sym ((bytes_eq_iff key name).0 same))
          (replace_from-hit (template pieces) h
            ∙ ap (λ rest. value ++ rest) (replace_from-fill pieces h clean.1))
    | inr other ↦ rw other (
        replace_from-miss name (template pieces) h clean.0 other
        ∙ ap (λ rest. b'{' ∷ (name ++ b'}' ∷ rest)) (replace_from-fill pieces h clean.1))
  ]

fill-IsClean :
    (key value : Bytes) (pieces : List Piece)
    → Without b'{' value
    → IsClean pieces
    → IsClean (fill key value pieces)
fill-IsClean key value [] h clean = tt
fill-IsClean key value (literal s ∷ pieces) h clean =
    (clean.0, fill-IsClean key value pieces h clean.1)
fill-IsClean key value (column name ∷ pieces) h clean =
    ground (arith, fill-IsClean key value pieces h clean.1)

abbrev pub Row : Type 0
Row = List (Bytes × Bytes)

-- The value of the first entry with a key.
abbrev pub value_of : Bytes → Row → Option Bytes
value_of name [] = none
value_of name ((key, value) ∷ row) = if bytes_eq key name then some value else value_of name row

abbrev pub settle : Row → Bytes → Piece
settle row name = elim (value_of name row) [ some value ↦ literal value | none ↦ column name ]

-- The pieces with each placeholder that names an entry replaced by its value, all at once.
abbrev pub filled : Row → List Piece → List Piece
filled row [] = []
filled row (literal s ∷ pieces) = literal s ∷ filled row pieces
filled row (column name ∷ pieces) = settle row name ∷ filled row pieces

filled-nil : (pieces : List Piece) → filled [] pieces ≡ pieces
filled-nil [] = refl
filled-nil (literal s ∷ pieces) = ap (◌∷◌ (literal s)) (filled-nil pieces)
filled-nil (column name ∷ pieces) = ap (◌∷◌ (column name)) (filled-nil pieces)

filled-fill :
    (key value : Bytes) (row : Row) (pieces : List Piece)
    → filled row (fill key value pieces) ≡ filled ((key, value) ∷ row) pieces
filled-fill key value row [] = refl
filled-fill key value row (literal s ∷ pieces) =
    ap (◌∷◌ (literal s)) (filled-fill key value row pieces)
filled-fill key value row (column name ∷ pieces) = ground (arith, filled-fill key value row pieces)

-- Neither the keys nor the values of the row hold a brace where it matters.
abbrev pub IsPlain : Row → Type 0
IsPlain [] = Unit
IsPlain ((key, value) ∷ row) = Without b'}' key × Without b'{' value × IsPlain row

-- A template whose texts and names hold no braces is filled all at once, in whatever order the map of values
-- is walked: when no value holds an opening brace, each placeholder that names an entry is replaced
-- by its value, and all else stays as it is.
pub format_string_lem :
    (row : Row) (pieces : List Piece)
    → IsPlain row
    → IsClean pieces
    → format_string (template pieces) row ≡ template (filled row pieces)
unfolding format_string
format_string_lem [] pieces plain clean = ap template (sym (filled-nil pieces))
format_string_lem ((key, value) ∷ row) pieces plain clean =
    rw (replace_from-fill key value pieces plain.0 clean) (
      format_string_lem row (fill key value pieces) plain.2
        (fill-IsClean key value pieces plain.1 clean)
      ∙ ap template (filled-fill key value row pieces))

-- The pieces with one name exchanged for another.
abbrev pub rename : Bytes → Bytes → List Piece → List Piece
rename old new [] = []
rename old new (literal s ∷ pieces) = literal s ∷ rename old new pieces
rename old new (column name ∷ pieces) =
    (if bytes_eq old name then column new else column name) ∷ rename old new pieces

rename-IsClean :
    (old new : Bytes) (pieces : List Piece)
    → IsName new
    → IsClean pieces
    → IsClean (rename old new pieces)
rename-IsClean old new [] h clean = tt
rename-IsClean old new (literal s ∷ pieces) h clean =
    (clean.0, rename-IsClean old new pieces h clean.1)
rename-IsClean old new (column name ∷ pieces) h clean =
    ground (arith, rename-IsClean old new pieces h clean.1)

template-fill-placeholder :
    (shown hidden : Bytes) (pieces : List Piece)
    → template (fill shown (placeholder hidden) pieces) ≡ template (rename shown hidden pieces)
template-fill-placeholder shown hidden [] = refl
template-fill-placeholder shown hidden (literal s ∷ pieces) =
    ap (λ rest. s ++ rest) (template-fill-placeholder shown hidden pieces)
template-fill-placeholder shown hidden (column name ∷ pieces) =
    elim (Bool-cases (bytes_eq shown name)) [
      | inl same ↦ rw same (
          ap (◌∷◌ b'{') (
            append_assoc hidden (bytes "}") (template (fill shown (placeholder hidden) pieces))
            ∙ ap (λ rest. hidden ++ b'}' ∷ rest) (template-fill-placeholder shown hidden pieces)))
      | inr other ↦ rw other (
          ap (λ rest. b'{' ∷ (name ++ b'}' ∷ rest)) (template-fill-placeholder shown hidden pieces))
    ]

-- A value that is itself a placeholder is filled in turn: where the first entry of the row says `{hidden}`, the
-- text is what the template gives that names `hidden` in the place of that entry, so that it shows the
-- value of an entry that the template does not name.
pub format_string-reveals :
    (shown hidden : Bytes) (row : Row) (pieces : List Piece)
    → Without b'}' shown
    → IsName hidden
    → IsPlain row
    → IsClean pieces
    → format_string (template pieces) ((shown, placeholder hidden) ∷ row)
      ≡ template (filled row (rename shown hidden pieces))
unfolding format_string
format_string-reveals shown hidden row pieces hs hh plain clean =
    rw
      (
        replace_from-fill shown (placeholder hidden) pieces hs clean,
        template-fill-placeholder shown hidden pieces,
      )
      (format_string_lem row (rename shown hidden pieces) plain
        (rename-IsClean shown hidden pieces hh clean))
