-- ===== src/Data/Crud/Injection/Same.antt =====
-- Statements of database_crud_helpers.cpp, and parts of them, that have the same text.
use mathlib.Core.Path.{ap₂}
use server_components.Common.Int.{ℤ}
use server_components.Common.{
  ℕ, suc, ◌≡◌, refl, sym, ap, ◌∙◌, Bool, true, false, inl, inr, List, [], ◌∷◌, ◌++◌, map,
  if◌then◌else◌, Bytes, bytes, arith, Bool-cases, is_empty,
}
use server_components.Data.Metadata.{
  Result, ok, invalid_argument, out_of_range, undefined, ◌>>=◌, ◌>>◌, KeyValueTable,
  DatabaseColumnInfo,
}
use server_components.Data.Crud.Params.{
  ExecParamsHelper, add_param, ColumnInfoTable, check_keys_in_table, insert_params_from,
  insert_column_names_from, esc, where_clause_from, where_clause,
  generate_database_column_info_table, lookup_column,
}
use server_components.Data.Crud.Statements.{Prepared, delete_conditions, limit_clause, int_mul}
use server_components.Data.Crud.Queries.{optional_where}
use server_components.Data.Crud.Binding.{
  placeholder_text, keys, slots, insert_params-text, check_keys, check_keys_in_table-keys,
  where_clause_from-text, where_clause_from-count,
}

abbrev pub text_of : Result Prepared → Result Bytes
text_of prepared = prepared >>= λ p. ok p.0

pub same_text {ℓ} :
    {A : Type ℓ} (m : Result A) (f g : A → Result Prepared)
    → ((a : A) → text_of (f a) ≡ text_of (g a))
    → text_of (m >>= f) ≡ text_of (m >>= g)
same_text (ok a) f g h = h a
same_text (invalid_argument what) f g h = refl
same_text out_of_range f g h = refl
same_text undefined f g h = refl

module _ (quote_name : Bytes → Bytes) where
  pub known_names : ColumnInfoTable → List Bytes → List Bytes
  known_names infos table_keys =
      insert_column_names_from quote_name infos (map (λ key. (key, [])) table_keys)

  pub names-known :
      (infos : ColumnInfoTable) (t : KeyValueTable)
      → insert_column_names_from quote_name infos t ≡ known_names infos (keys t)
  unfolding insert_column_names_from known_names
  names-known infos [] = refl
  names-known infos ((key, value) ∷ t) = ground (arith, names-known infos t)

  module _ (allowed : List Bytes) (t u : KeyValueTable) (k : keys t ≡ keys u) where
    pub same_check :
        (infos : ColumnInfoTable) → check_keys_in_table t infos ≡ check_keys_in_table u infos
    same_check infos =
        check_keys_in_table-keys t infos
        ∙ (ap (λ ks. check_keys ks infos) k ∙ sym (check_keys_in_table-keys u infos))

    pub same_names :
        (infos : ColumnInfoTable)
        → insert_column_names_from quote_name infos t ≡ insert_column_names_from quote_name infos u
    same_names infos = names-known infos t ∙ (ap (known_names infos) k ∙ sym (names-known infos u))

    pub same_params :
        (s : slots allowed t ≡ slots allowed u) (g h : ExecParamsHelper)
        → g.count ≡ h.count
        → (insert_params_from allowed t g).0 ≡ (insert_params_from allowed u h).0
    same_params s g h c =
        insert_params-text allowed t g ∙ ((rw (s, c)) ∙ sym (insert_params-text allowed u h))

    pub same_conditions :
        (first : Bool) (g h : ExecParamsHelper)
        → g.count ≡ h.count
        → (where_clause_from quote_name first t g).0 ≡ (where_clause_from quote_name first u h).0
    same_conditions first g h c =
        where_clause_from-text quote_name first t g
        ∙ ((rw (k, c)) ∙ sym (where_clause_from-text quote_name first u h))

  -- What is written before the text of a step that may fail.
  pub text_frame :
      (frame : Bytes → Bytes) (m : Result Prepared)
      → text_of (m >>= λ p. ok (frame p.0, p.1)) ≡ (text_of m >>= λ s. ok (frame s))
  text_frame frame (ok p) = refl
  text_frame frame (invalid_argument what) = refl
  text_frame frame out_of_range = refl
  text_frame frame undefined = refl

  pub delete_conditions-ignores :
      (infos : List DatabaseColumnInfo) (first : Bool) (t u : KeyValueTable)
      (g h : ExecParamsHelper)
      → keys t ≡ keys u
      → g.count ≡ h.count
      → text_of (delete_conditions quote_name first infos t g)
        ≡ text_of (delete_conditions quote_name first infos u h)
  unfolding delete_conditions add_param
  delete_conditions-ignores infos first [] [] g h k c = refl
  delete_conditions-ignores infos first [] (_ ∷ u) g h k c = cc
  delete_conditions-ignores infos first (_ ∷ t) [] g h k c = cc
  delete_conditions-ignores infos first ((key, v) ∷ t) ((key', w) ∷ u) g h k c =
      let same_key : key ≡ key' = cc in
      let same_keys : keys t ≡ keys u = cc in
      let frame = λ (n : ℕ) (s : Bytes).
        (if first then [] else bytes " AND")
        ++ (bytes " " ++ (esc quote_name key' ++ (bytes " = " ++ (placeholder_text n ++ s)))) in
      rw same_key (
        same_text (lookup_column infos key') _ _ λ _.
          text_frame (frame g.count) (delete_conditions quote_name false infos t (add_param v g).1)
          ∙ (ap₂ (λ n r. r >>= λ s. ok (frame n s)) c
                (delete_conditions-ignores infos false t u (add_param v g).1 (add_param w h).1
                  same_keys (ap suc c))
              ∙ sym (
                  text_frame (frame h.count)
                    (delete_conditions quote_name false infos u (add_param w h).1))))

pub limit-ignores :
    (page_size page : ℤ) (g h : ExecParamsHelper)
    → g.count ≡ h.count
    → text_of (limit_clause page_size page g) ≡ text_of (limit_clause page_size page h)
unfolding limit_clause add_param
limit-ignores page_size page g h c = same_text (int_mul page page_size) _ _ λ _. rw c

-- The text and the counter of a prepared statement.
abbrev pub shape_of : Result Prepared → Result (Bytes × ℕ)
shape_of prepared = prepared >>= λ p. ok (p.0, p.1.count)

pub same_bind :
    (m n : Result Prepared) (f g : Prepared → Result Prepared)
    → shape_of m ≡ shape_of n
    → ((p q : Prepared) → p.0 ≡ q.0 → p.1.count ≡ q.1.count → text_of (f p) ≡ text_of (g q))
    → text_of (m >>= f) ≡ text_of (n >>= g)
same_bind (ok p) (ok q) f g s h = h p q (cc) (cc)
same_bind (invalid_argument v) (invalid_argument w) f g s h = cc
same_bind out_of_range out_of_range f g s h = refl
same_bind undefined undefined f g s h = refl
same_bind _ _ f g s h = cc

pub same_shape :
    (check : Result (Unit {0})) (p q : Prepared)
    → p.0 ≡ q.0
    → p.1.count ≡ q.1.count
    → shape_of (check >> ok p) ≡ shape_of (check >> ok q)
same_shape (ok _) p q a b = ground arith
same_shape (invalid_argument what) p q a b = refl
same_shape out_of_range p q a b = refl
same_shape undefined p q a b = refl

pub same_empty : (t u : KeyValueTable) → keys t ≡ keys u → is_empty t ≡ is_empty u
same_empty [] [] k = refl
same_empty (_ ∷ _) (_ ∷ _) k = refl
same_empty _ _ k = cc

module _ (quote_name : Bytes → Bytes) (t u : KeyValueTable) (k : keys t ≡ keys u) where
  pub same_count :
      (first : Bool) (h : ExecParamsHelper)
      → (where_clause_from quote_name first t h).1.count
        ≡ (where_clause_from quote_name first u h).1.count
  same_count first h =
      where_clause_from-count quote_name first t h
      ∙ ((rw k) ∙ sym (where_clause_from-count quote_name first u h))

  pub optional_where-shape :
      (infos : List DatabaseColumnInfo) (h : ExecParamsHelper)
      → shape_of (optional_where quote_name infos t h)
        ≡ shape_of (optional_where quote_name infos u h)
  unfolding optional_where where_clause
  optional_where-shape infos h =
      let info_table = generate_database_column_info_table infos in
      let clause = where_clause quote_name in
      rw (same_empty t u k, same_check quote_name [] t u k info_table)
        (elim (Bool-cases (is_empty u)) [
          | inl empty ↦ rw empty refl
          | inr some_keys ↦ rw some_keys (
              same_shape (check_keys_in_table u info_table)
                (bytes " WHERE " ++ (clause t h).0, (clause t h).1)
                (bytes " WHERE " ++ (clause u h).0, (clause u h).1)
                (ap (λ c. bytes " WHERE " ++ c) (same_conditions quote_name [] t u k true h h refl))
                (same_count true h))
        ])
