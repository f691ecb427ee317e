-- ===== src/Auth/Tokens.antt =====
-- The tables of sessions and device tokens: components/platform/sql_util/table_helpers/sessions.cpp and
-- device_tokens.cpp, with the columns and defaults of components/platform/db_schema.
--
-- The identifiers, the random UUIDs and the time that the database gives are arguments. `uuid_eq` is the
-- equality of a UUID with a text; a text that is no UUID equals none, and makes the look-up throw, as a
-- missing row does. One reading of the clock serves a whole statement. That a unique column refuses a second row
-- with its value is not modelled, nor is the error of a sum of times that exceeds 64 bits.
use server_components.Common.Int.{ℤ, ◌+ℤ◌, ltb_ℤ, leb_ℤ}
use server_components.Common.{
  ℕ, Bool, true, false, ◌&&◌, not, Option, none, some, List, [], ◌∷◌, ◌++◌, if◌then◌else◌, keep,
  length, Bytes, bytes_eq, is_empty,
}
use server_components.Auth.Lockout.{eq_ℤ}

-- A value, or an exception.
pub data Outcome {ℓ} (A : Type ℓ) : Type ℓ where
  returned : A → Outcome A
  thrown : Outcome A

pub record SessionRow : Type 0 where
  pub id : ℤ
  pub uuid : Bytes
  pub person_id : ℤ
  pub created_at : ℤ
  pub last_seen_at : ℤ
  pub expires_at : ℤ
  pub revoked : Bool

-- The row that `AddSession` inserts; the other columns take their defaults.
abbrev pub new_session : ℤ → ℤ → ℤ → Bytes → ℤ → ℤ → SessionRow
new_session created_us now_us id uuid person_id micros_until_expires = record {
  id = id;
  uuid = uuid;
  person_id = person_id;
  created_at = created_us;
  last_seen_at = created_us;
  expires_at = now_us +ℤ micros_until_expires;
  revoked = false;
}

unfoldable pub add_session : ℤ → ℤ → ℤ → Bytes → ℤ → ℤ → List SessionRow → List SessionRow
add_session created_us now_us id uuid person_id micros_until_expires sessions =
    sessions ++ new_session created_us now_us id uuid person_id micros_until_expires ∷ []

unfoldable pub lookup_session_by_id : ℤ → List SessionRow → Outcome SessionRow
lookup_session_by_id id [] = thrown
lookup_session_by_id id (row ∷ sessions) =
    if eq_ℤ row.id id then returned row else lookup_session_by_id id sessions

unfoldable pub lookup_session_by_uuid :
    (Bytes → Bytes → Bool) → Bytes → List SessionRow → Outcome SessionRow
lookup_session_by_uuid uuid_eq uuid [] = thrown
lookup_session_by_uuid uuid_eq uuid (row ∷ sessions) =
    if uuid_eq row.uuid uuid then returned row else lookup_session_by_uuid uuid_eq uuid sessions

unfoldable pub lookup_session_by_person : ℤ → List SessionRow → Outcome (List SessionRow)
lookup_session_by_person person_id sessions =
    if is_empty (keep (λ row. eq_ℤ row.person_id person_id) sessions)
    then thrown
    else returned (keep (λ row. eq_ℤ row.person_id person_id) sessions)

-- `WHERE id = $1`, when the row exists.
unfoldable pub set_last_seen : ℤ → ℤ → List SessionRow → List SessionRow
set_last_seen now_us id [] = []
set_last_seen now_us id (row ∷ sessions) =
    (if eq_ℤ row.id id then record row { last_seen_at = now_us } else row)
    ∷ set_last_seen now_us id sessions

unfoldable pub update_last_seen : ℤ → ℤ → List SessionRow → Outcome (List SessionRow)
unfolding lookup_session_by_id set_last_seen
update_last_seen now_us id sessions = elim (lookup_session_by_id id sessions) [
  | returned row ↦ returned (set_last_seen now_us id sessions)
  | thrown ↦ thrown
]

unfoldable pub remove_sessions_for_user : ℤ → List SessionRow → List SessionRow
remove_sessions_for_user person_id sessions =
    keep (λ row. not (eq_ℤ row.person_id person_id)) sessions

unfoldable pub remove_session : ℤ → List SessionRow → List SessionRow
remove_session id sessions = keep (λ row. not (eq_ℤ row.id id)) sessions

pub record DeviceTokenRow : Type 0 where
  pub id : ℤ
  pub uuid : Bytes
  pub person_id : ℤ
  pub secret_hash : Bytes
  pub created_at : ℤ
  pub last_used_at : Option ℤ
  pub expires_at : ℤ
  pub revoked : Bool

-- The row that `AddDeviceToken` inserts.
abbrev pub new_device_token : ℤ → ℤ → ℤ → Bytes → ℤ → Bytes → ℤ → DeviceTokenRow
new_device_token created_us now_us id uuid person_id secret_hash micros_until_expires = record {
  id = id;
  uuid = uuid;
  person_id = person_id;
  secret_hash = secret_hash;
  created_at = created_us;
  last_used_at = none;
  expires_at = now_us +ℤ micros_until_expires;
  revoked = false;
}

unfoldable pub add_device_token :
    ℤ → ℤ → ℤ → Bytes → ℤ → Bytes → ℤ → List DeviceTokenRow → List DeviceTokenRow
add_device_token created_us now_us id uuid person_id secret_hash micros_until_expires tokens =
    tokens
    ++ new_device_token created_us now_us id uuid person_id secret_hash micros_until_expires ∷ []

unfoldable pub lookup_device_token_by_id : ℤ → List DeviceTokenRow → Outcome DeviceTokenRow
lookup_device_token_by_id id [] = thrown
lookup_device_token_by_id id (row ∷ tokens) =
    if eq_ℤ row.id id then returned row else lookup_device_token_by_id id tokens

unfoldable pub lookup_device_token_by_uuid :
    (Bytes → Bytes → Bool) → Bytes → List DeviceTokenRow → Outcome DeviceTokenRow
lookup_device_token_by_uuid uuid_eq uuid [] = thrown
lookup_device_token_by_uuid uuid_eq uuid (row ∷ tokens) =
    if uuid_eq row.uuid uuid then returned row else lookup_device_token_by_uuid uuid_eq uuid tokens

unfoldable pub lookup_device_token_by_person :
    ℤ → List DeviceTokenRow → Outcome (List DeviceTokenRow)
lookup_device_token_by_person person_id tokens =
    if is_empty (keep (λ row. eq_ℤ row.person_id person_id) tokens)
    then thrown
    else returned (keep (λ row. eq_ℤ row.person_id person_id) tokens)

unfoldable pub lookup_device_token_by_secret_hash :
    Bytes → List DeviceTokenRow → Outcome DeviceTokenRow
lookup_device_token_by_secret_hash secret_hash [] = thrown
lookup_device_token_by_secret_hash secret_hash (row ∷ tokens) =
    if bytes_eq row.secret_hash secret_hash
    then returned row
    else lookup_device_token_by_secret_hash secret_hash tokens

-- The four conditions of `ConsumeAndRotate`.
unfoldable pub is_consumable : ℤ → Bytes → Bytes → DeviceTokenRow → Bool
is_consumable now_us old_secret_hash old_uuid row =
    bytes_eq row.secret_hash old_secret_hash
    && bytes_eq row.uuid old_uuid
    && not row.revoked
    && ltb_ℤ now_us row.expires_at

unfoldable pub rotate : ℤ → Bytes → Bytes → ℤ → DeviceTokenRow → DeviceTokenRow
rotate now_us new_uuid new_secret_hash micros_until_expires row = record row {
  uuid = new_uuid;
  secret_hash = new_secret_hash;
  last_used_at = some now_us;
  expires_at = now_us +ℤ micros_until_expires;
}

-- The update of `ConsumeAndRotate` with the first row that it returns: its person and its new UUID.
unfoldable pub consume_and_rotate :
    ℤ
    → Bytes
    → Bytes
    → Bytes
    → Bytes
    → ℤ
    → List DeviceTokenRow
    → Option (ℤ × Bytes) × List DeviceTokenRow
unfolding is_consumable rotate
consume_and_rotate now_us new_uuid old_secret_hash old_uuid new_secret_hash micros [] = (none, [])
consume_and_rotate now_us new_uuid old_secret_hash old_uuid new_secret_hash micros (row ∷ tokens) =
    let (found, rotated) =
      consume_and_rotate now_us new_uuid old_secret_hash old_uuid new_secret_hash micros tokens in
    if is_consumable now_us old_secret_hash old_uuid row
    then (
      some (row.person_id, new_uuid),
      rotate now_us new_uuid new_secret_hash micros row ∷ rotated,
    )
    else (found, row ∷ rotated)

-- `IsValid`
unfoldable pub is_valid : ℤ → ℤ → List DeviceTokenRow → Outcome Bool
unfolding lookup_device_token_by_id
is_valid now_us id tokens = elim (lookup_device_token_by_id id tokens) [
  | returned row ↦ returned (if row.revoked then false else leb_ℤ now_us row.expires_at)
  | thrown ↦ thrown
]

-- `UPDATE ... WHERE id = $1`
unfoldable pub update_token :
    (DeviceTokenRow → DeviceTokenRow) → ℤ → List DeviceTokenRow → List DeviceTokenRow
update_token change id [] = []
update_token change id (row ∷ tokens) =
    (if eq_ℤ row.id id then change row else row) ∷ update_token change id tokens

-- `Revoke`
unfoldable pub revoke : ℤ → List DeviceTokenRow → Outcome (List DeviceTokenRow)
unfolding lookup_device_token_by_id update_token
revoke id tokens = elim (lookup_device_token_by_id id tokens) [
  | returned row ↦ returned (update_token (λ row. record row { revoked = true }) id tokens)
  | thrown ↦ thrown
]

-- The values that `UpdateDeviceToken` sets; `begin_us` is the time that the transaction began at.
unfoldable pub replace_secret : ℤ → ℤ → Bytes → Bytes → ℤ → DeviceTokenRow → DeviceTokenRow
replace_secret begin_us used_us new_uuid secret_hash micros_until_expires row = record row {
  uuid = new_uuid;
  secret_hash = secret_hash;
  last_used_at = some used_us;
  expires_at = begin_us +ℤ micros_until_expires;
}

-- Whether the token was valid, and the table after the update.
unfoldable pub update_device_token :
    ℤ → ℤ → ℤ → Bytes → ℤ → Bytes → ℤ → List DeviceTokenRow → Outcome (Bool × List DeviceTokenRow)
unfolding is_valid replace_secret update_token
update_device_token check_us begin_us used_us new_uuid id secret_hash micros_until_expires tokens =
    elim (is_valid check_us id tokens) [
      | returned true ↦ returned (
        true,
        update_token (replace_secret begin_us used_us new_uuid secret_hash micros_until_expires) id
            tokens,
      )
      | returned false ↦ returned (false, tokens)
      | thrown ↦ thrown
    ]

unfoldable pub remove_device_token_by_id : ℤ → List DeviceTokenRow → List DeviceTokenRow
remove_device_token_by_id id tokens = keep (λ row. not (eq_ℤ row.id id)) tokens

unfoldable pub remove_device_tokens_for_user : ℤ → List DeviceTokenRow → List DeviceTokenRow
remove_device_tokens_for_user person_id tokens =
    keep (λ row. not (eq_ℤ row.person_id person_id)) tokens

-- The rows that stay, and how many were deleted.
unfoldable pub delete_expired : ℤ → List DeviceTokenRow → List DeviceTokenRow × ℕ
delete_expired as_of_us tokens = (
  keep (λ row. not (ltb_ℤ row.expires_at as_of_us)) tokens,
  length (keep (λ row. ltb_ℤ row.expires_at as_of_us) tokens),
)
