-- ===== src/Auth/Sessions/Expiry.antt =====
-- How long a device token can be used.
use server_components.Common.Int.{ℤ, ◌+ℤ◌, ltb_ℤ}
use server_components.Common.{
  ◌≡◌, refl, Bool, true, false, inl, inr, Option, none, some, List, [], ◌∷◌, ◌++◌, if◌then◌else◌,
  arith, All, Bytes, bytes_eq, bytes_eq_refl, Bool-cases,
}
use server_components.Foundation.Numbers.RoundTrip.{IsInt64, stoll-string_from_int}
use server_components.Auth.Secrets.{Secrets}
use server_components.Auth.People.{Person, lookup_person_by_email}
use server_components.Auth.Lockout.{eq_ℤ}
use server_components.Auth.Lockout.Locking.{eq_ℤ_refl}
use server_components.Auth.Tokens.{
  returned, new_device_token, lookup_device_token_by_id, add_device_token, DeviceTokenRow,
  is_consumable, consume_and_rotate,
}
use server_components.Auth.Sessions.{
  verified, required_duration, device_token_duration_key, device_token_helper, create_device_token,
  try_login_with_device_token, handed_out,
}

-- No row has the identifier.
abbrev pub IsNewUuid : Bytes → List DeviceTokenRow → Type 0
IsNewUuid uuid tokens = All (λ row. bytes_eq row.uuid uuid ≡ false) tokens

consume-last :
    (now_us : ℤ) (new_uuid hash uuid new_hash : Bytes) (micros : ℤ) (tokens : List DeviceTokenRow)
    (row : DeviceTokenRow)
    → IsNewUuid uuid tokens
    → (consume_and_rotate now_us new_uuid hash uuid new_hash micros (tokens ++ row ∷ [])).0
      ≡ (if is_consumable now_us hash uuid row then some (row.person_id, new_uuid) else none)
unfolding consume_and_rotate
consume-last now_us new_uuid hash uuid new_hash micros [] row new = ground arith
consume-last now_us new_uuid hash uuid new_hash micros (other ∷ tokens) row new =
    let skipped : is_consumable now_us hash uuid other ≡ false =
      unfold is_consumable in (ground arith) in
    rw skipped (consume-last now_us new_uuid hash uuid new_hash micros tokens row new.1)

-- No row has the number.
abbrev pub IsNewTokenId : ℤ → List DeviceTokenRow → Type 0
IsNewTokenId id tokens = All (λ row. eq_ℤ row.id id ≡ false) tokens

lookup_id-last :
    (id : ℤ) (tokens : List DeviceTokenRow) (row : DeviceTokenRow)
    → IsNewTokenId id tokens
    → eq_ℤ row.id id ≡ true
    → lookup_device_token_by_id id (tokens ++ row ∷ []) ≡ returned row
unfolding lookup_device_token_by_id
lookup_id-last id [] row new same = rw same
lookup_id-last id (other ∷ tokens) row new same = rw new.0 (lookup_id-last id tokens row new.1 same)

consumed_once_created :
    (clock_us created_us now_us later_us id duration micros : ℤ)
    (uuid hash new_uuid new_hash handed : Bytes) (tokens : List DeviceTokenRow) (person_id : ℤ)
    → IsNewUuid uuid tokens
    → handed_out handed
        (consume_and_rotate later_us new_uuid hash uuid new_hash micros (
          add_device_token created_us now_us id uuid person_id hash
            (clock_us +ℤ duration)
            tokens)).0
      ≡ (if ltb_ℤ later_us (now_us +ℤ (clock_us +ℤ duration))
          then some (new_uuid, handed)
          else none)
unfolding add_device_token is_consumable
consumed_once_created clock_us created_us now_us later_us id duration micros uuid hash new_uuid
      new_hash handed tokens person_id new =
    rw
      (
        consume-last later_us new_uuid hash uuid new_hash micros tokens _ new,
        bytes_eq_refl hash,
        bytes_eq_refl uuid,
      )
      (elim (Bool-cases (ltb_ℤ later_us (now_us +ℤ (clock_us +ℤ duration)))) [
        | inl early ↦ rw early refl
        | inr late ↦ rw late refl
      ])

module _ (hash_binary base64_encode : Bytes → Bytes) (base64_decode : Bytes → Option Bytes) where
  -- A device token that has just been created is accepted until the time of its creation, taken twice, plus the configured
  -- duration, and no longer: once as the clock read it and once as the transaction began. The secrets have a duration
  -- then and later, the address is that of a verified person, whose number has 64 bits, the number and the UUID of the
  -- token are new, its secret is decoded from what it is encoded as, and the sums that are taken have 64 bits: the clock
  -- plus the duration, and the time of the transaction plus that, at the creation and at the login.
  pub create_device_token-expiry :
      (citext_eq : Bytes → Bytes → Bool)
      (clock_us created_us now_us later_clock_us later_us id duration later_duration : ℤ)
      (uuid secret_bytes new_uuid new_bytes : Bytes) (secrets later_secrets : Secrets)
      (email : Bytes) (people : List Person) (person : Person) (tokens : List DeviceTokenRow)
      → lookup_person_by_email citext_eq email people ≡ some person
      → person.email_verified ≡ true
      → IsInt64 person.id
      → required_duration secrets device_token_duration_key ≡ returned (some duration)
      → required_duration later_secrets device_token_duration_key ≡ returned (some later_duration)
      → base64_decode (base64_encode secret_bytes) ≡ some secret_bytes
      → IsNewTokenId id tokens
      → IsNewUuid uuid tokens
      → IsInt64 (clock_us +ℤ duration)
      → IsInt64 (now_us +ℤ (clock_us +ℤ duration))
      → IsInt64 (later_clock_us +ℤ later_duration)
      → IsInt64 (later_us +ℤ (later_clock_us +ℤ later_duration))
      → let (made, after) =
          create_device_token hash_binary base64_encode base64_decode citext_eq clock_us created_us
            now_us id uuid secret_bytes secrets email people tokens in
        (made ≡ some (uuid, base64_encode secret_bytes))
        × ((try_login_with_device_token hash_binary base64_encode base64_decode later_clock_us
              later_us new_uuid new_bytes later_secrets uuid
              (base64_encode secret_bytes)
              after).0
            ≡ (if ltb_ℤ later_us (now_us +ℤ (clock_us +ℤ duration))
                then some (new_uuid, base64_encode new_bytes)
                else none))
  unfolding create_device_token try_login_with_device_token device_token_helper verified
      add_device_token
  create_device_token-expiry citext_eq clock_us created_us now_us later_clock_us later_us id
        duration later_duration uuid secret_bytes new_uuid new_bytes secrets later_secrets email
        people person tokens found is_verified fits configured later_configured decoded new_id new
        sum_fits end_fits later_sum_fits later_end_fits =
      rw
        (
          found,
          create_device_token,
          is_verified,
          stoll-string_from_int person.id fits,
          configured,
          lookup_id-last id tokens
              (new_device_token created_us now_us id uuid person.id (hash_binary secret_bytes)
                (clock_us +ℤ duration))
              new_id (eq_ℤ_refl id),
        )
        (
          refl,
          rw (decoded, try_login_with_device_token, later_configured)
              (consumed_once_created clock_us created_us now_us later_us id duration
                (later_clock_us +ℤ later_duration) uuid (hash_binary secret_bytes) new_uuid
                (hash_binary new_bytes) (base64_encode new_bytes) tokens person.id new),
        )
