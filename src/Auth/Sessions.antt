-- ===== src/Auth/Sessions.antt =====
-- Sessions and device tokens of `PersonHelper`: components/platform/business_logic/auth/person.cpp.
--
-- libsodium is a parameter: `hash_binary`, and the two directions of Base64, of which decoding may throw. The
-- random bytes, the identifiers and UUIDs that the database gives, and the time are arguments. A new
-- row counts from the time that the transaction began at; `now_us()` reads the clock, so it has an argument of its own.
-- The sums of times are taken within 64 bits: an overflow, which is undefined in C++ and an error in SQL, is not modelled.
pub mod DeviceTokens
pub mod Lifetime
pub mod Expiry
pub mod Logout
mod Tests
use server_components.Common.Int.{ℤ, pos, ◌+ℤ◌, ltb_ℤ, leb_ℤ}
use server_components.Common.{
  Bool, true, false, not, Option, none, some, List, [], ◌∷◌, ◌++◌, if◌then◌else◌, Bytes, bytes,
  is_empty,
}
use server_components.Foundation.Text.{string_to_bool}
use server_components.Foundation.Numbers.{string_from_int, stoll}
use server_components.Auth.Secrets.{Secrets}
use server_components.Auth.People.{Person, lookup_person_by_email}
use server_components.Auth.Tokens.{
  Outcome, returned, thrown, SessionRow, add_session, lookup_session_by_id, lookup_session_by_uuid,
  remove_sessions_for_user, DeviceTokenRow, add_device_token, lookup_device_token_by_id,
  consume_and_rotate, remove_device_tokens_for_user,
}

-- `IsVerified` of the row that was looked up.
unfoldable pub verified : Option Person → Option Person
verified none = none
verified (some person) = if person.email_verified then some person else none

-- How a Boolean column reads.
abbrev pub bool_text : Bool → Bytes
bool_text true = bytes "t"
bool_text false = bytes "f"

abbrev pub session_duration_key : Bytes
session_duration_key = bytes "auth_session_max_duration_in_micros"

abbrev pub device_token_duration_key : Bytes
device_token_duration_key = bytes "auth_device_token_max_duration_in_micros"

abbrev pub last_seen_window_key : Bytes
last_seen_window_key = bytes "auth_session_last_seen_update_duration_in_micros"

-- A duration that has to be configured: `none` when it is not, an exception when it is no number.
unfoldable pub required_duration : Secrets → Bytes → Outcome (Option ℤ)
required_duration none key = returned none
required_duration (some lookup_secret) key =
    if is_empty (lookup_secret key)
    then returned none
    else elim (stoll (lookup_secret key)) [ some n ↦ returned (some n) | none ↦ thrown ]

module _ (citext_eq : Bytes → Bytes → Bool) where
  -- The session of the person, when there is one; `some` is the token.
  unfoldable pub create_session_token :
      ℤ
      → ℤ
      → ℤ
      → Bytes
      → Secrets
      → Bytes
      → List Person
      → List SessionRow
      → Outcome (Option Bytes) × List SessionRow
  unfolding required_duration verified lookup_session_by_id add_session
  create_session_token created_us now_us id uuid secrets email people sessions =
      elim (required_duration secrets session_duration_key) [
        | thrown ↦ (thrown, sessions)
        | returned none ↦ (returned none, sessions)
        | returned (some max_duration) ↦
            elim (verified (lookup_person_by_email citext_eq email people)) [
              | none ↦ (returned none, sessions)
              | some person ↦ elim (stoll (string_from_int person.id)) [
                | none ↦ (thrown, sessions)
                | some person_id ↦
                    let after =
                      add_session created_us now_us id uuid person_id max_duration sessions in
                    (
                      elim (lookup_session_by_id id after) [
                        | returned row ↦ returned (some row.uuid)
                        | thrown ↦ thrown
                      ],
                      after,
                    )
              ]
            ]
      ]

-- The tests that `LookupPersonIdBySessionToken` makes on the row.
unfoldable pub person_of_session : ℤ → SessionRow → Option ℤ
person_of_session now_us row =
    if string_to_bool (bool_text row.revoked)
    then none
    else elim (stoll (string_from_int row.expires_at)) [
      | none ↦ none
      | some expires_at ↦
          if ltb_ℤ expires_at now_us then none else stoll (string_from_int row.person_id)
    ]

unfoldable pub lookup_person_id_by_session_token :
    (Bytes → Bytes → Bool) → ℤ → Bytes → List SessionRow → Outcome (Option ℤ)
unfolding person_of_session
lookup_person_id_by_session_token uuid_eq now_us session_token sessions =
    elim (lookup_session_by_uuid uuid_eq session_token sessions) [
      | thrown ↦ thrown
      | returned row ↦ returned (person_of_session now_us row)
    ]

-- Whether `SessionUsed` has the time that the session was last seen brought up to date.
unfoldable pub session_used :
    (Bytes → Bytes → Bool) → ℤ → Secrets → Bytes → List SessionRow → Outcome (Option ℤ)
unfolding required_duration
session_used uuid_eq now_us secrets session_token sessions =
    elim (lookup_session_by_uuid uuid_eq session_token sessions) [
      | thrown ↦ thrown
      | returned row ↦ elim (required_duration secrets last_seen_window_key) [
        | thrown ↦ thrown
        | returned none ↦ returned none
        | returned (some window) ↦
            returned (if leb_ℤ now_us (row.last_seen_at +ℤ window) then none else some row.id)
      ]
    ]

-- What a login hands out when the update found its row.
abbrev pub handed_out : Bytes → Option (ℤ × Bytes) → Option (Bytes × Bytes)
handed_out new_secret none = none
handed_out new_secret (some (person_id, token_id)) = some (token_id, new_secret)

module _ (hash_binary : Bytes → Bytes) (base64_encode : Bytes → Bytes)
    (base64_decode : Bytes → Option Bytes) where
  -- The hash of the new secret, the secret as it is handed out, and the time that it expires at.
  unfoldable pub device_token_helper : ℤ → Bytes → Secrets → Outcome (Option (Bytes × Bytes × ℤ))
  unfolding required_duration
  device_token_helper now_us secret_bytes secrets =
      elim (required_duration secrets device_token_duration_key) [
        | thrown ↦ thrown
        | returned none ↦ returned none
        | returned (some max_duration) ↦
            returned
              (some (hash_binary secret_bytes, base64_encode secret_bytes, now_us +ℤ max_duration))
      ]

  -- The identifier and the secret of the new token. The time that it expires at is passed on as the time until then.
  unfoldable pub create_device_token :
      (Bytes → Bytes → Bool)
      → ℤ
      → ℤ
      → ℤ
      → ℤ
      → Bytes
      → Bytes
      → Secrets
      → Bytes
      → List Person
      → List DeviceTokenRow
      → Option (Bytes × Bytes) × List DeviceTokenRow
  unfolding device_token_helper verified lookup_device_token_by_id add_device_token
  create_device_token citext_eq clock_us created_us now_us id uuid secret_bytes secrets email people
        tokens =
      elim (verified (lookup_person_by_email citext_eq email people)) [
        | none ↦ (none, tokens)
        | some person ↦ elim (stoll (string_from_int person.id)) [
          | none ↦ (none, tokens)
          | some person_id ↦ elim (device_token_helper clock_us secret_bytes secrets) [
            | thrown ↦ (none, tokens)
            | returned none ↦ (none, tokens)
            | returned (some (secret_hash, secret, expires_us)) ↦
                let after =
                  add_device_token created_us now_us id uuid person_id secret_hash expires_us
                    tokens in
                (
                  elim (lookup_device_token_by_id id after) [
                    | returned row ↦ some (row.uuid, secret)
                    | thrown ↦ none
                  ],
                  after,
                )
          ]
        ]
      ]

  -- The identifier and the secret that replace those that were presented, when the login succeeds; what the out
  -- parameters hold after a failure is left out.
  unfoldable pub try_login_with_device_token :
      ℤ
      → ℤ
      → Bytes
      → Bytes
      → Secrets
      → Bytes
      → Bytes
      → List DeviceTokenRow
      → Option (Bytes × Bytes) × List DeviceTokenRow
  unfolding device_token_helper consume_and_rotate
  try_login_with_device_token clock_us now_us new_uuid secret_bytes secrets token_id secret tokens =
      elim (base64_decode secret) [
        | none ↦ (none, tokens)
        | some presented ↦ elim (device_token_helper clock_us secret_bytes secrets) [
          | thrown ↦ (none, tokens)
          | returned none ↦ (none, tokens)
          | returned (some (new_secret_hash, new_secret, new_expires_us)) ↦
              let (found, rotated) =
                consume_and_rotate now_us new_uuid (hash_binary presented) token_id new_secret_hash
                  new_expires_us tokens in
              (handed_out new_secret found, rotated)
        ]
      ]

-- `LogoutPerson`
unfoldable pub logout_person :
    ℤ → List DeviceTokenRow → List SessionRow → List DeviceTokenRow × List SessionRow
unfolding remove_device_tokens_for_user remove_sessions_for_user
logout_person person_id tokens sessions =
    (remove_device_tokens_for_user person_id tokens, remove_sessions_for_user person_id sessions)
