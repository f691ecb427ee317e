-- ===== src/Auth/People.antt =====
-- The rows of the table of people, as far as signing in uses them
-- (components/platform/db_schema/people.cpp), and their look-up.
use server_components.Common.Int.{ℤ}
use server_components.Common.{Bool, Option, none, some, List, [], ◌∷◌, if◌then◌else◌, Bytes}

-- `email_verified` says that `email_verified_at` is set.
pub record Person : Type 0 where
  pub id : ℤ
  pub email : Bytes
  pub email_verified : Bool
  pub password_hash : Bytes
  pub failed_login_attempts : ℤ
  pub locked_until : Option ℤ

-- `People::LookupPersonByEmail`: the address column is CITEXT.
unfoldable pub lookup_person_by_email : (Bytes → Bytes → Bool) → Bytes → List Person → Option Person
lookup_person_by_email citext_eq email [] = none
lookup_person_by_email citext_eq email (person ∷ people) =
    let later = lookup_person_by_email citext_eq email people in
    if citext_eq person.email email then some person else later
