-- ===== src/Data/ForeignKeys/Integrity.antt =====
-- Each child field has one parent, and the queries agree with the list of references.
use server_components.Common.{
  String, ◌≡◌, refl, ◌≢◌, ◌↔◌, ◌⊎◌, inl, inr, Bool, true, false, none, some, List, [], ◌∷◌, ◌++◌,
  arith, if◌then◌else◌, str_eq_iff, Option-cases,
}
use server_components.Data.ForeignKeys.{
  TableColumnPair, pair_eq, ForeignKeyReference, Refs, ok, invalid_argument, find_child,
  add_foreign_key_reference, get_child_references, is_root_table, get_foreign_reference_fields,
  has_foreign_reference, get_foreign_reference_of_field, is_nullable,
}

pub pair_eq_iff : (p q : TableColumnPair) → (pair_eq p q ≡ true) ↔ (p ≡ q)
unfolding pair_eq
pair_eq_iff p q =
    ground (arith, str_eq_iff p.table_name q.table_name, str_eq_iff p.column_name q.column_name)

-- No two references of the list have the same child field.
abbrev pub IsFunctional : Refs → Type 0
IsFunctional [] = Unit
IsFunctional (ref ∷ refs) = (find_child ref.child refs ≡ none) × IsFunctional refs

find_child-append :
    (c : TableColumnPair) (refs : Refs) (new : ForeignKeyReference)
    → find_child c (refs ++ new ∷ []) ≡ elim (find_child c refs) [
      | some ref ↦ some ref
      | none ↦ if pair_eq new.child c then some new else none
    ]
unfolding find_child
find_child-append c [] new = refl
find_child-append c (ref ∷ refs) new = ground (arith, find_child-append c refs new)

IsFunctional-append :
    (refs : Refs) (new : ForeignKeyReference)
    → IsFunctional refs
    → find_child new.child refs ≡ none
    → IsFunctional (refs ++ new ∷ [])
unfolding find_child
IsFunctional-append [] new f h = (refl, tt)
IsFunctional-append (ref ∷ refs) new f h = (
  ground (
    arith,
    find_child-append ref.child refs new,
    pair_eq_iff new.child ref.child,
    pair_eq_iff ref.child new.child,
  ),
  IsFunctional-append refs new f.1 (ground (arith)),
)

-- Adding a reference keeps the child fields distinct, whatever is added.
pub add-IsFunctional :
    (parent child : TableColumnPair) (nullable : Bool) (refs : Refs) {refs' : Refs}
    → IsFunctional refs
    → add_foreign_key_reference parent child nullable refs ≡ ok refs'
    → IsFunctional refs'
unfolding add_foreign_key_reference
add-IsFunctional parent child nullable refs f e = elim (Option-cases (find_child child refs)) [
  | inl fresh ↦ ground (
    arith,
    IsFunctional-append refs (record { parent = parent; child = child; nullable = nullable }) f
        fresh,
  )
  | inr (ref, found) ↦ ground arith
]

-- A field that had no reference gets the parent that was added, nullable as it was said; every other
-- field keeps its own.
pub add-find_child :
    (parent child other : TableColumnPair) (nullable : Bool) (refs : Refs)
    → find_child child refs ≡ none
    → (refs' : Refs) × (add_foreign_key_reference parent child nullable refs ≡ ok refs')
      × (get_foreign_reference_of_field child refs' ≡ ok parent)
      × (has_foreign_reference child refs' ≡ true)
      × (other ≢ child → find_child other refs' ≡ find_child other refs)
unfolding add_foreign_key_reference get_foreign_reference_of_field has_foreign_reference
add-find_child parent child other nullable refs fresh =
    let new : ForeignKeyReference = record {
      parent = parent;
      child = child;
      nullable = nullable;
    } in
    let at_child = find_child-append child refs new in
    let self = (pair_eq_iff child child).1 refl in
    (
      refs ++ new ∷ [],
      ground arith,
      ground (arith, at_child, self),
      ground (arith, at_child, self),
      λ differs. ground (arith, find_child-append other refs new, pair_eq_iff child other),
    )

-- A second parent of a field is never recorded: the call is refused if both the table and the column
-- differ from the first, and otherwise it changes nothing.
pub add_second_parent :
    (parent child : TableColumnPair) (nullable : Bool) (refs : Refs) (ref : ForeignKeyReference)
    → find_child child refs ≡ some ref
    → (add_foreign_key_reference parent child nullable refs ≡ invalid_argument)
        × (ref.parent.table_name ≢ parent.table_name)
        × (ref.parent.column_name ≢ parent.column_name)
      ⊎ (add_foreign_key_reference parent child nullable refs ≡ ok refs)
        × ((ref.parent.table_name ≡ parent.table_name)
            ⊎ (ref.parent.column_name ≡ parent.column_name))
unfolding add_foreign_key_reference
add_second_parent parent child nullable refs ref found = ground (
  arith,
  str_eq_iff ref.parent.table_name parent.table_name,
  str_eq_iff ref.parent.column_name parent.column_name,
)

-- Where only one of table and column differs, a contradicting parent is accepted without a word.
pub add_contradiction_ignored :
    (parent child : TableColumnPair) (nullable : Bool) (refs : Refs) (ref : ForeignKeyReference)
    → find_child child refs ≡ some ref
    → ref.parent.table_name ≢ parent.table_name
    → ref.parent.column_name ≡ parent.column_name
    → (add_foreign_key_reference parent child nullable refs ≡ ok refs)
      × (get_foreign_reference_of_field child refs ≢ ok parent)
unfolding add_foreign_key_reference get_foreign_reference_of_field
add_contradiction_ignored parent child nullable refs ref found differs same = (
  ground (arith, str_eq_iff ref.parent.column_name parent.column_name),
  λ e. differs (ground arith),
)

-- A table is a root exactly if it refers to no parent field.
pub is_root_table_iff :
    (t : String) (refs : Refs)
    → (is_root_table t refs ≡ true) ↔ (get_foreign_reference_fields t refs ≡ [])
unfolding is_root_table get_foreign_reference_fields
is_root_table_iff t [] = ground arith
is_root_table_iff t (ref ∷ refs) = ground (arith, is_root_table_iff t refs)

-- The place of a field in a list of fields.
abbrev pub occurs : TableColumnPair → List TableColumnPair → Bool
occurs c [] = false
occurs c (d ∷ ds) = elim (pair_eq d c) [ true ↦ true | false ↦ occurs c ds ]

occurs_of_find :
    (c : TableColumnPair) (refs : Refs) (ref : ForeignKeyReference)
    → find_child c refs ≡ some ref
    → occurs c (get_child_references ref.parent refs) ≡ true
unfolding find_child get_child_references
occurs_of_find c [] ref h = cc
occurs_of_find c (r ∷ refs) ref h =
    ground
      (arith, pair_eq_iff r.parent ref.parent, occurs_of_find c refs ref, pair_eq_iff r.child c)

is_nullable_of_find :
    (c : TableColumnPair) (refs : Refs) (ref : ForeignKeyReference)
    → find_child c refs ≡ some ref
    → is_nullable ref.parent c refs ≡ ok ref.nullable
unfolding find_child is_nullable
is_nullable_of_find c [] ref h = cc
is_nullable_of_find c (r ∷ refs) ref h =
    ground (arith, pair_eq_iff r.parent ref.parent, is_nullable_of_find c refs ref)

-- The two directions of the graph agree: the recorded parent of a field is what the field refers to
-- and lists the field among its children, and the pair of them has the recorded nullability.
pub find_child-agrees :
    (child : TableColumnPair) (refs : Refs) (ref : ForeignKeyReference)
    → find_child child refs ≡ some ref
    → (get_foreign_reference_of_field child refs ≡ ok ref.parent)
      × (occurs child (get_child_references ref.parent refs) ≡ true)
      × (is_nullable ref.parent child refs ≡ ok ref.nullable)
unfolding get_foreign_reference_of_field
find_child-agrees child refs ref found =
    (ground arith, occurs_of_find child refs ref found, is_nullable_of_find child refs ref found)
