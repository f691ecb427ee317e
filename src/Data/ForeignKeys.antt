-- ===== src/Data/ForeignKeys.antt =====
-- components/data/sql_util/schema/foreign_key_manager.cpp: the foreign keys of a database schema.
--
-- A manager is a handle on a shared list of references (the `shared_ptr` to the implementation), so
-- the lists stand in a heap: a copy of a manager is the same handle, a clone is a new one.
-- `std::invalid_argument` is the result `invalid_argument`, without the text of its message.
pub mod Integrity
pub mod Sharing
mod Tests
use server_components.Common.{
  ℕ, String, ◌≡◌, Bool, true, false, ◌&&◌, not, Option, none, some, List, [], ◌∷◌, ◌++◌,
  if◌then◌else◌, str_eq, length, get_elem?, set, keep, map,
}

pub record TableColumnPair : Type 0 where
  pub table_name : String
  pub column_name : String

-- `operator==` on pairs, and the two comparisons that the methods write out.
unfoldable pub pair_eq : TableColumnPair → TableColumnPair → Bool
pair_eq ref1 ref2 =
    str_eq ref1.table_name ref2.table_name && str_eq ref1.column_name ref2.column_name

pub record ForeignKeyReference : Type 0 where
  pub parent : TableColumnPair
  pub child : TableColumnPair
  pub nullable : Bool

abbrev pub Refs : Type 0
Refs = List ForeignKeyReference

pub data Result {ℓ} (A : Type ℓ) : Type ℓ where
  ok : A → Result A
  invalid_argument : Result A

-- The first reference of a child field, which three of the methods search for.
unfoldable pub find_child : TableColumnPair → Refs → Option ForeignKeyReference
find_child child [] = none
find_child child (ref ∷ refs) = if pair_eq ref.child child then some ref else find_child child refs

-- The test under which a second parent of a child is refused, as it is written.
unfoldable pub conflicts : TableColumnPair → TableColumnPair → Bool
conflicts old new =
    not (str_eq old.table_name new.table_name) && not (str_eq old.column_name new.column_name)

unfoldable pub add_foreign_key_reference :
    TableColumnPair → TableColumnPair → Bool → Refs → Result Refs
unfolding conflicts
add_foreign_key_reference parent child nullable refs = elim (find_child child refs) [
  | some ref ↦ if conflicts ref.parent parent then invalid_argument else ok refs
  | none ↦ ok (refs ++ record { parent = parent; child = child; nullable = nullable } ∷ [])
]

unfoldable pub get_child_references : TableColumnPair → Refs → List TableColumnPair
get_child_references parent refs =
    map (λ ref. ref.child) (keep (λ ref. pair_eq ref.parent parent) refs)

unfoldable pub get_child_references_of_table : String → Refs → List TableColumnPair
get_child_references_of_table parent_table refs =
    map (λ ref. ref.child) (keep (λ ref. str_eq ref.parent.table_name parent_table) refs)

unfoldable pub is_root_table : String → Refs → Bool
is_root_table table_name [] = true
is_root_table table_name (ref ∷ refs) =
    if str_eq ref.child.table_name table_name then false else is_root_table table_name refs

unfoldable pub get_foreign_reference_fields : String → Refs → List TableColumnPair
get_foreign_reference_fields child_table refs =
    map (λ ref. ref.parent) (keep (λ ref. str_eq ref.child.table_name child_table) refs)

unfoldable pub has_foreign_reference : TableColumnPair → Refs → Bool
has_foreign_reference field refs = elim (find_child field refs) [ some ref ↦ true | none ↦ false ]

unfoldable pub get_foreign_reference_of_field : TableColumnPair → Refs → Result TableColumnPair
get_foreign_reference_of_field field refs = elim (find_child field refs) [
  | some ref ↦ ok ref.parent
  | none ↦ invalid_argument
]

unfoldable pub is_nullable : TableColumnPair → TableColumnPair → Refs → Result Bool
is_nullable parent child [] = invalid_argument
is_nullable parent child (ref ∷ refs) =
    if pair_eq ref.parent parent && pair_eq ref.child child
    then ok ref.nullable
    else is_nullable parent child refs

-- The implementations that live on the heap; a manager is the index of its own.
abbrev pub Heap : Type 0
Heap = List Refs

abbrev pub ForeignKeyManager : Type 0
ForeignKeyManager = ℕ

abbrev pub deref : Heap → ForeignKeyManager → Refs
deref h m = elim (get_elem? h m) [ some refs ↦ refs | none ↦ [] ]

-- The constructor: `make_shared` of an empty implementation.
unfoldable pub make_manager : Heap → ForeignKeyManager × Heap
make_manager h = (length h, h ++ [] ∷ [])

-- The copy constructor shares the implementation.
unfoldable pub copy : ForeignKeyManager → Heap → ForeignKeyManager × Heap
copy m h = (m, h)

-- `Clone`: the implementation of a fresh manager is replaced by a deep copy of ours.
unfoldable pub clone : ForeignKeyManager → Heap → ForeignKeyManager × Heap
clone m h = (length h, h ++ deref h m ∷ [])

-- `AddForeignKeyReference` through a manager; an exception leaves the heap as it was.
unfoldable pub manager_add :
    TableColumnPair → TableColumnPair → Bool → ForeignKeyManager → Heap → Result (Unit {0}) × Heap
manager_add parent child nullable m h =
    elim (add_foreign_key_reference parent child nullable (deref h m)) [
      | ok refs ↦ (ok tt, set h m refs)
      | invalid_argument ↦ (invalid_argument, h)
    ]
