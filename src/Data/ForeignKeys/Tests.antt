-- ===== src/Data/ForeignKeys/Tests.antt =====
-- The foreign keys of a small schema, and the theorems at it.
use server_components.Common.{String, ◌≡◌, refl, true, false, [], ◌∷◌}
use server_components.Data.ForeignKeys.{
  TableColumnPair, ForeignKeyReference, Refs, invalid_argument, find_child,
  add_foreign_key_reference, has_foreign_reference, get_foreign_reference_of_field, pair_eq,
}
use server_components.Data.ForeignKeys.Integrity.{IsFunctional, add-IsFunctional}

abbrev field : String → String → TableColumnPair
field t c = record { table_name = t; column_name = c }

abbrev people_id : TableColumnPair
people_id = field "people" "id"

abbrev classes_id : TableColumnPair
classes_id = field "classes" "id"

abbrev session_person : TableColumnPair
session_person = field "sessions" "person_id"

abbrev session_key : ForeignKeyReference
session_key = record { parent = people_id; child = session_person; nullable = true }

abbrev refs : Refs
refs = session_key ∷ []

schema : Unit {0}
unfolding add_foreign_key_reference find_child pair_eq get_foreign_reference_of_field
    has_foreign_reference
schema = tt

second_parent_is_refused :
    add_foreign_key_reference (field "classes" "code") session_person false refs ≡ invalid_argument
unfolding schema
second_parent_is_refused = refl

-- Another child field with a parent that is taken already.
abbrev booking_person : TableColumnPair
booking_person = field "bookings" "person_id"

abbrev booking_key : ForeignKeyReference
booking_key = record { parent = people_id; child = booking_person; nullable = false }

add-IsFunctional_example : IsFunctional (session_key ∷ booking_key ∷ [])
unfolding schema
add-IsFunctional_example = add-IsFunctional people_id booking_person false refs (refl, tt) refl
