-- ===== src/Auth/Lockout.antt =====
-- `PersonHelper::LoginPerson` of components/platform/business_logic/auth/person.cpp: a password is verified,
-- and failures lock the account.
--
-- Argon2id (`AuthHelper::VerifyPassword`) and equality on CITEXT columns are parameters. The count and the end of the lock
-- are sums within 64 bits: that PostgreSQL raises an error beyond is not modelled.
pub mod Locking
use server_components.Common.Int.{ℤ, pos, negsuc, ◌+ℤ◌, ltb_ℤ, leb_ℤ}
use server_components.Common.{
  ℕ, Bool, true, false, ◌&&◌, Option, none, some, List, [], ◌∷◌, if◌then◌else◌, map, Bytes, bytes,
  bytes_eq, leb, ltb,
}
use server_components.Foundation.Numbers.{string_from_int, stoll}
use server_components.Auth.Secrets.{Secrets, stoll_or, lookup_int64_secret}
use server_components.Auth.People.{Person, lookup_person_by_email}

pub record LoginAttemptResult : Type 0 where
  pub success : Bool
  pub just_locked : Bool
  pub person_id : ℤ
  pub failed_login_attempts : ℤ
  pub locked_until : ℤ

-- The defaults of the struct.
abbrev pub no_login : LoginAttemptResult
no_login = record {
  success = false;
  just_locked = false;
  person_id = negsuc 0;
  failed_login_attempts = pos 0;
  locked_until = pos 0;
}

abbrev pub eq_ℤ : ℤ → ℤ → Bool
eq_ℤ a b = leb_ℤ a b && leb_ℤ b a

-- `WHERE id = $1`
unfoldable pub update_by_id : ℤ → (Person → Person) → List Person → List Person
update_by_id id f [] = []
update_by_id id f (person ∷ people) =
    (if eq_ℤ person.id id then f person else person) ∷ update_by_id id f people

-- `SET failed_login_attempts = 0, locked_until = NULL`
unfoldable pub reset_lockout : Person → Person
reset_lockout person = record {
  id = person.id;
  email = person.email;
  email_verified = person.email_verified;
  password_hash = person.password_hash;
  failed_login_attempts = pos 0;
  locked_until = none;
}

-- The update of a failed attempt: the count goes up, and at the threshold the lock is set.
unfoldable pub count_failure : ℤ → ℤ → ℤ → Person → Person
count_failure now_us threshold lockout_duration_micros person = record {
  id = person.id;
  email = person.email;
  email_verified = person.email_verified;
  password_hash = person.password_hash;
  failed_login_attempts = person.failed_login_attempts +ℤ pos 1;
  locked_until =
      if leb_ℤ threshold (person.failed_login_attempts +ℤ pos 1)
      then some (now_us +ℤ lockout_duration_micros)
      else person.locked_until;
}

-- `COALESCE(locked_until, 0)`
unfoldable pub locked_or_zero : Option ℤ → ℤ
locked_or_zero none = pos 0
locked_or_zero (some t) = t

-- The two numbers of the returned row; the first that cannot be read leaves both that follow at zero.
unfoldable pub read_bookkeeping : Person → ℤ × ℤ
read_bookkeeping row = elim (stoll (string_from_int row.failed_login_attempts)) [
  | none ↦ (pos 0, pos 0)
  | some attempts ↦ (attempts, stoll_or (pos 0) (string_from_int (locked_or_zero row.locked_until)))
]

module _ (citext_eq : Bytes → Bytes → Bool) (verify_password : Bytes → Bytes → Bool) where
  -- What happens to a person that has been found and is verified.
  unfoldable pub login_verified :
      ℤ → Secrets → Bytes → Person → List Person → LoginAttemptResult × List Person
  login_verified now_us secrets password person people =
      let threshold =
        lookup_int64_secret secrets (bytes "auth_account_lockout_after_failures") (pos 10) in
      let lockout_duration_micros =
        lookup_int64_secret secrets (bytes "auth_account_lockout_duration_in_micros")
          (pos 1800000000) in
      let cleared = read_bookkeeping (reset_lockout person) in
      let counted =
        read_bookkeeping (count_failure now_us threshold lockout_duration_micros person) in
      if verify_password password person.password_hash
      then (
        record {
          success = true;
          just_locked = false;
          person_id = person.id;
          failed_login_attempts = cleared.0;
          locked_until = cleared.1;
        },
        update_by_id person.id reset_lockout people,
      )
      else (
        record {
          success = false;
          just_locked = eq_ℤ counted.0 threshold && ltb_ℤ (pos 0) counted.1;
          person_id = negsuc 0;
          failed_login_attempts = counted.0;
          locked_until = counted.1;
        },
        update_by_id person.id (count_failure now_us threshold lockout_duration_micros) people,
      )

  unfoldable pub login_person :
      ℤ → Secrets → Bytes → Bytes → List Person → LoginAttemptResult × List Person
  login_person now_us secrets email password people =
      elim (lookup_person_by_email citext_eq email people) [
        | none ↦ (no_login, people)
        | some person ↦
            if person.email_verified
            then (elim (stoll (string_from_int person.id)) [
              | none ↦ (no_login, people)
              | some id ↦ login_verified now_us secrets password person people
            ])
            else (no_login, people)
      ]
