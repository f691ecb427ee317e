-- ===== src/Auth/Sessions/Tests.antt =====
-- Sessions and device tokens at small tables, and the theorems at them.
use server_components.Common.Int.{pos, ◌+ℤ◌}
use server_components.Common.{
  ◌≡◌, ◌≢◌, ap, All, refl, true, false, Option, none, some, List, [], ◌∷◌, ◌++◌, arith, Bytes,
  bytes, bytes_eq, trim_front,
}
use server_components.Foundation.Text.{is_space, string_to_bool}
use server_components.Foundation.Numbers.{
  digits_from, string_from_int, is_digit, starts_with_digit, read_digits, unsigned_part,
  negative_part, signed_part, stoll,
}
use server_components.Foundation.Numbers.RoundTrip.{IsInt64}
use server_components.Auth.Secrets.{Secrets}
use server_components.Auth.People.{Person, lookup_person_by_email}
use server_components.Auth.Tokens.{
  returned, SessionRow, new_session, lookup_session_by_uuid, DeviceTokenRow, new_device_token,
  is_consumable, rotate, consume_and_rotate,
}
use server_components.Auth.Sessions.{
  required_duration, session_duration_key, device_token_duration_key, device_token_helper,
  lookup_person_id_by_session_token, person_of_session, create_device_token,
  try_login_with_device_token, logout_person,
}
use server_components.Auth.Sessions.DeviceTokens.{try_login_with_device_token-once}
use server_components.Auth.Sessions.Expiry.{IsNewTokenId, IsNewUuid, create_device_token-expiry}
use server_components.Auth.Sessions.Lifetime.{
  IsNewToken, FitsSession, FoundUntil, create_session_token-lasts,
}
use server_components.Auth.Sessions.Logout.{logout_person-ends, logout_person-keeps}

abbrev person : Person
person = record {
  id = pos 7;
  email = bytes "a@x";
  email_verified = true;
  password_hash = bytes "hash";
  failed_login_attempts = pos 0;
  locked_until = none;
}

-- Every duration is a thousand microseconds.
abbrev secrets : Secrets
secrets = some (λ key. bytes "1000")

abbrev hash_of : Bytes → Bytes
hash_of s = bytes "h" ++ s

abbrev encode : Bytes → Bytes
encode s = bytes "=" ++ s

abbrev decode : Bytes → Option Bytes
decode [] = none
decode (c ∷ s) = some s

-- Of person 7 and of person 8.
abbrev sessions : List SessionRow
sessions =
    new_session (pos 10) (pos 10) (pos 1) (bytes "s1") (pos 7) (pos 1000)
    ∷ new_session (pos 20) (pos 20) (pos 2) (bytes "s2") (pos 8) (pos 1000)
    ∷ []

abbrev tokens : List DeviceTokenRow
tokens =
    new_device_token (pos 10) (pos 10) (pos 1) (bytes "d1") (pos 7) (bytes "ha") (pos 1000)
    ∷ new_device_token (pos 20) (pos 20) (pos 2) (bytes "d2") (pos 8) (bytes "hb") (pos 1000)
    ∷ []

-- The table after a login with the first token.
abbrev rotated : List DeviceTokenRow
rotated =
    record {
      id = pos 1;
      uuid = bytes "d3";
      person_id = pos 7;
      secret_hash = bytes "hc";
      created_at = pos 10;
      last_used_at = some (pos 31);
      expires_at = pos 1061;
      revoked = false;
    }
    ∷ new_device_token (pos 20) (pos 20) (pos 2) (bytes "d2") (pos 8) (bytes "hb") (pos 1000)
    ∷ []

configured : (key : Bytes) → required_duration secrets key ≡ returned (some (pos 1000))
unfolding required_duration stoll signed_part unsigned_part negative_part read_digits
    starts_with_digit is_digit trim_front is_space
configured key = refl

logs_in :
    try_login_with_device_token hash_of encode decode
      (pos 30)
      (pos 31)
      (bytes "d3")
      (bytes "c")
      secrets
      (bytes "d1")
      (bytes "=a")
      tokens
    ≡ (some (bytes "d3", bytes "=c"), rotated)
unfolding try_login_with_device_token device_token_helper required_duration consume_and_rotate
    is_consumable rotate stoll signed_part unsigned_part negative_part read_digits starts_with_digit
    is_digit trim_front is_space bytes_eq ◌+ℤ◌
logs_in = refl

is_new : bytes "d3" ≢ bytes "d1"
unfolding bytes_eq
is_new e = absurd (ground (arith, ap (λ s. bytes_eq s (bytes "d1")) e))

try_login_with_device_token-once_example :
    try_login_with_device_token hash_of encode decode
      (pos 40)
      (pos 41)
      (bytes "d4")
      (bytes "d")
      secrets
      (bytes "d1")
      (bytes "=a")
      rotated
    ≡ (none, rotated)
try_login_with_device_token-once_example =
    try_login_with_device_token-once hash_of encode decode (pos 30) (pos 31) (pos 40) (pos 41)
      (bytes "d3") (bytes "c") (bytes "d4") (bytes "d") secrets secrets (bytes "d1") (bytes "=a")
      tokens rotated (bytes "d3", bytes "=c") (omega arith) is_new logs_in

person_found : lookup_person_by_email bytes_eq (bytes "a@x") (person ∷ []) ≡ some person
unfolding lookup_person_by_email bytes_eq
person_found = refl

person_fits : IsInt64 (pos 7)
person_fits = omega arith

sessions_fit : All FitsSession sessions
unfolding ◌+ℤ◌
sessions_fit = ((omega arith, omega arith), ((omega arith, omega arith), tt))

new_number : IsNewTokenId (pos 3) tokens
new_number = (refl, (refl, tt))

new_uuid : IsNewUuid (bytes "d5") tokens
unfolding bytes_eq
new_uuid = (refl, (refl, tt))

new_token : IsNewToken bytes_eq (bytes "s3") sessions
unfolding bytes_eq
new_token = (refl, (refl, tt))

second_found :
    lookup_person_id_by_session_token bytes_eq (pos 30) (bytes "s2") sessions
    ≡ returned (some (pos 8))
unfolding lookup_person_id_by_session_token lookup_session_by_uuid person_of_session string_to_bool
    stoll signed_part unsigned_part negative_part read_digits starts_with_digit is_digit trim_front
    is_space string_from_int digits_from bytes_eq ◌+ℤ◌
second_found = refl

create_device_token-expiry_example :
    let (made, after) =
      create_device_token hash_of encode decode bytes_eq
        (pos 50)
        (pos 52)
        (pos 51)
        (pos 3)
        (bytes "d5")
        (bytes "e")
        secrets
        (bytes "a@x")
        (person ∷ [])
        tokens in
    (made ≡ some (bytes "d5", bytes "=e"))
    × ((try_login_with_device_token hash_of encode decode
          (pos 1100)
          (pos 1100)
          (bytes "d6")
          (bytes "f")
          secrets
          (bytes "d5")
          (bytes "=e")
          after).0
        ≡ some (bytes "d6", bytes "=f"))
unfolding ◌+ℤ◌
create_device_token-expiry_example =
    create_device_token-expiry hash_of encode decode bytes_eq (pos 50) (pos 52) (pos 51) (pos 1100)
      (pos 1100) (pos 3) (pos 1000) (pos 1000) (bytes "d5") (bytes "e") (bytes "d6") (bytes "f")
      secrets secrets (bytes "a@x") (person ∷ []) person tokens person_found refl person_fits
      (configured device_token_duration_key) (configured device_token_duration_key) refl new_number
      new_uuid (omega arith) (omega arith) (omega arith) (omega arith)

create_session_token-lasts_example :
    FoundUntil bytes_eq bytes_eq
      (pos 52)
      (pos 51)
      (pos 1052)
      (pos 3)
      (bytes "s3")
      (pos 1000)
      secrets
      (bytes "a@x")
      (person ∷ [])
      person
      sessions
unfolding ◌+ℤ◌ bytes_eq
create_session_token-lasts_example =
    create_session_token-lasts bytes_eq bytes_eq (pos 52) (pos 51) (pos 1052) (pos 3) (bytes "s3")
      (pos 1000) secrets (bytes "a@x") (person ∷ []) person sessions person_found refl
      (configured session_duration_key) person_fits (omega arith) (refl, (refl, tt)) new_token refl

logout_person-ends_example :
    let (tokens_left, sessions_left) = logout_person (pos 7) tokens sessions in
    (lookup_person_id_by_session_token bytes_eq (pos 30) (bytes "s1") sessions_left
      ≢ returned (some (pos 7)))
    × ((consume_and_rotate
          (pos 30)
          (bytes "d3")
          (bytes "ha")
          (bytes "d1")
          (bytes "hc")
          (pos 1000)
          tokens_left).0
        ≢ some (pos 7, bytes "d3"))
logout_person-ends_example =
    logout_person-ends bytes_eq (pos 30) (pos 7) (bytes "s1") (bytes "d3") (bytes "ha") (bytes "d1")
      (bytes "hc") (pos 1000) tokens sessions sessions_fit

logout_person-keeps_example :
    lookup_person_id_by_session_token bytes_eq
      (pos 30)
      (bytes "s2")
      (logout_person (pos 7) tokens sessions).1
    ≡ returned (some (pos 8))
logout_person-keeps_example =
    logout_person-keeps bytes_eq (pos 30) (pos 7) (pos 8) (bytes "s2") tokens sessions sessions_fit
      refl second_found
