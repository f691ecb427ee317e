-- ===== src/Data/Crud/Templates.antt =====
-- `ParseTemplateColumns` and `ResolveDisplayValues` of
-- components/data/sql_util/database_access/database_crud_helpers.cpp: display templates such as
-- `{first_name} {last_name}`.
use server_components.Common.{
  ℕ, zero, suc, ◌≤◌, ◌≡◌, refl, ap, ◌∙◌, inl, inr, none, some, List, [], ◌∷◌, ◌++◌, if◌then◌else◌,
  Bytes, bytes_eq, is_empty, arith, length, length-append, length-drop, Option-cases, take, drop,
  find_byte, find_byte_at, take-append, Without,
}
use server_components.Foundation.Text.{format_string}
use server_components.Foundation.Text.Templates.{Piece, literal, column, template, IsClean}
use server_components.Data.Metadata.{KeyValueTable, find_value}

-- The loop of `ParseTemplateColumns` on what follows `pos`; every round passes two bytes, so the length of the
-- text is fuel enough.
unfoldable pub template_columns_from : ℕ → Bytes → List Bytes
template_columns_from zero text = []
template_columns_from (suc fuel) text = elim (find_byte b'{' text) [
  | none ↦ []
  | some start ↦ elim (find_byte b'}' (drop (suc start) text)) [
    | none ↦ []
    | some size ↦
        take size (drop (suc start) text)
        ∷ template_columns_from fuel (drop (suc size) (drop (suc start) text))
  ]
]

unfoldable pub parse_template_columns : Bytes → List Bytes
unfolding template_columns_from
parse_template_columns display_template =
    template_columns_from (length display_template) display_template

-- `result[key] = value`
unfoldable pub put_value : Bytes → Bytes → KeyValueTable → KeyValueTable
put_value key value [] = (key, value) ∷ []
put_value key value ((k, old) ∷ table) =
    if bytes_eq k key then (k, value) ∷ table else (k, old) ∷ put_value key value table

-- What one row is shown as.
unfoldable pub display_value : Bytes → Bytes → KeyValueTable → Bytes
display_value pk_value display_template row =
    if is_empty display_template then pk_value else format_string display_template row

-- The loop of `ResolveDisplayValues`; the result is only searched, so the order of its entries is left open.
unfoldable pub resolve_from : Bytes → Bytes → KeyValueTable → List KeyValueTable → KeyValueTable
unfolding put_value display_value
resolve_from pk_col display_template result [] = result
resolve_from pk_col display_template result (row ∷ rows) = elim (find_value pk_col row) [
  | none ↦ resolve_from pk_col display_template result rows
  | some pk_value ↦
      resolve_from pk_col display_template
        (put_value pk_value (display_value pk_value display_template row) result) rows
]

unfoldable pub resolve_display_values : List KeyValueTable → Bytes → Bytes → KeyValueTable
unfolding resolve_from
resolve_display_values rows pk_col display_template = resolve_from pk_col display_template [] rows

-- The names of the placeholders of a template.
abbrev pub columns : List Piece → List Bytes
columns [] = []
columns (literal s ∷ pieces) = columns pieces
columns (column name ∷ pieces) = name ∷ columns pieces

template_columns_from-text :
    (fuel : ℕ) (s text : Bytes)
    → Without b'{' s
    → template_columns_from fuel (s ++ text) ≡ template_columns_from fuel text
unfolding template_columns_from find_byte
template_columns_from-text zero s text h = refl
template_columns_from-text (suc fuel) [] text h = refl
template_columns_from-text (suc fuel) (c ∷ s) text h =
    ground (arith, template_columns_from-text (suc fuel) s text h.1)

drop-past : (s text : Bytes) (c : ℕ) → drop (suc (length s)) (s ++ c ∷ text) ≡ text
drop-past [] text c = refl
drop-past (d ∷ s) text c = drop-past s text c

parse-fuel :
    (fuel : ℕ) (pieces : List Piece)
    → length (template pieces) ≤ fuel
    → IsClean pieces
    → template_columns_from fuel (template pieces) ≡ columns pieces
unfolding template_columns_from find_byte
parse-fuel zero [] enough clean = refl
parse-fuel (suc fuel) [] enough clean = refl
parse-fuel fuel (literal s ∷ pieces) enough clean =
    template_columns_from-text fuel s (template pieces) clean.0
    ∙ parse-fuel fuel pieces (omega (arith, length-append {0} s (template pieces), enough)) clean.1
parse-fuel zero (column name ∷ pieces) enough clean = absurd (omega arith)
parse-fuel (suc fuel) (column name ∷ pieces) enough clean =
    rw
      (
        find_byte_at b'}' name (template pieces) clean.0.1,
        template_columns_from,
        take-append name (b'}' ∷ template pieces),
        drop-past name (template pieces) b'}',
      )
      (ap (◌∷◌ name) (
        parse-fuel fuel pieces
          (omega (arith, enough, length-append {0} name (b'}' ∷ template pieces))) clean.1))

-- The names of the placeholders of a template, in order, are read back from its text, when the texts between them
-- hold no opening brace and the names hold none of the two braces.
pub parse_template_columns_lem :
    (pieces : List Piece)
    → IsClean pieces
    → parse_template_columns (template pieces) ≡ columns pieces
unfolding parse_template_columns
parse_template_columns_lem pieces clean =
    parse-fuel (length (template pieces)) pieces (omega arith) clean

drop_shorter :
    (n start size : ℕ) (text : Bytes)
    → length text ≤ suc n
    → length (drop (suc size) (drop (suc start) text)) ≤ n
drop_shorter n start size text h =
    omega
      (arith, length-drop {0} (suc size) (drop (suc start) text), length-drop {0} (suc start) text)

fuel-agrees :
    (f g : ℕ) (text : Bytes)
    → length text ≤ f
    → length text ≤ g
    → template_columns_from f text ≡ template_columns_from g text
unfolding template_columns_from find_byte
fuel-agrees zero zero text hf hg = refl
fuel-agrees zero (suc g) [] hf hg = refl
fuel-agrees (suc f) zero [] hf hg = refl
fuel-agrees (suc f) (suc g) text hf hg = elim (Option-cases (find_byte b'{' text)) [
  | inl missing ↦ rw (missing, template_columns_from)
  | inr (start, found) ↦
      rw (found, template_columns_from)
        (elim (Option-cases (find_byte b'}' (drop (suc start) text))) [
          | inl unclosed ↦ rw unclosed
          | inr (size, closed) ↦ rw closed (
              let shorter = λ (n : ℕ) (h : length text ≤ suc n). drop_shorter n start size text h in
              ap (◌∷◌ (take size (drop (suc start) text))) (
                fuel-agrees f g (drop (suc size) (drop (suc start) text)) (shorter f hf)
                  (shorter g hg)))
        ])
]
fuel-agrees zero (suc g) (c ∷ text) hf hg = absurd (omega arith)
fuel-agrees (suc f) zero (c ∷ text) hf hg = absurd (omega arith)

-- The loop over a template ends: rounds beyond the length of the text find nothing more, so the result does not
-- depend on the number that is allowed.
pub parse_template_columns-fuel :
    (fuel : ℕ) (text : Bytes)
    → length text ≤ fuel
    → template_columns_from fuel text ≡ parse_template_columns text
unfolding parse_template_columns
parse_template_columns-fuel fuel text enough =
    fuel-agrees fuel (length text) text enough (omega arith)
