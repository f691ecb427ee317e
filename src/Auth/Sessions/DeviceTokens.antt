-- ===== src/Auth/Sessions/DeviceTokens.antt =====
-- A device token is good for one login, and for how long.
use server_components.Common.Int.{ℤ, ◌≤ℤ◌}
use server_components.Common.{
  ◌≡◌, refl, subst, ◌⊎◌, ◌≢◌, false, inl, inr, Option, none, some, List, [], ◌∷◌, arith, All, Bytes,
  bytes_eq, bytes_eq_iff, Bool-cases, Option-cases,
}
use server_components.Auth.Secrets.{Secrets}
use server_components.Auth.Tokens.{
  Outcome, returned, thrown, DeviceTokenRow, is_consumable, rotate, consume_and_rotate,
}
use server_components.Auth.Sessions.{device_token_helper, try_login_with_device_token}

-- No row can be consumed by the secret and the identifier.
abbrev pub NoneConsumable : ℤ → Bytes → Bytes → List DeviceTokenRow → Type 0
NoneConsumable now_us secret_hash uuid tokens =
    All (λ row. is_consumable now_us secret_hash uuid row ≡ false) tokens

consume-none :
    (now_us : ℤ) (new_uuid old_hash old_uuid new_hash : Bytes) (micros : ℤ)
    (tokens : List DeviceTokenRow)
    → NoneConsumable now_us old_hash old_uuid tokens
    → consume_and_rotate now_us new_uuid old_hash old_uuid new_hash micros tokens ≡ (none, tokens)
unfolding consume_and_rotate
consume-none now_us new_uuid old_hash old_uuid new_hash micros [] h = refl
consume-none now_us new_uuid old_hash old_uuid new_hash micros (row ∷ tokens) h =
    rw (consume-none now_us new_uuid old_hash old_uuid new_hash micros tokens h.1, h.0)

is_consumable-later :
    (now_us later_us : ℤ) (hash uuid : Bytes) (row : DeviceTokenRow)
    → now_us ≤ℤ later_us
    → is_consumable now_us hash uuid row ≡ false
    → is_consumable later_us hash uuid row ≡ false
unfolding is_consumable
is_consumable-later now_us later_us hash uuid row later h = ground arith

is_consumable-rotate :
    (now_us later_us : ℤ) (new_uuid hash uuid new_hash : Bytes) (micros : ℤ) (row : DeviceTokenRow)
    → bytes_eq new_uuid uuid ≡ false
    → is_consumable later_us hash uuid (rotate now_us new_uuid new_hash micros row) ≡ false
unfolding is_consumable rotate
is_consumable-rotate now_us later_us new_uuid hash uuid new_hash micros row fresh = ground arith

consume-NoneConsumable :
    (now_us later_us : ℤ) (new_uuid hash uuid new_hash : Bytes) (micros : ℤ)
    (tokens : List DeviceTokenRow)
    → now_us ≤ℤ later_us
    → bytes_eq new_uuid uuid ≡ false
    → NoneConsumable later_us hash uuid
        (consume_and_rotate now_us new_uuid hash uuid new_hash micros tokens).1
unfolding consume_and_rotate
consume-NoneConsumable now_us later_us new_uuid hash uuid new_hash micros [] later fresh = tt
consume-NoneConsumable now_us later_us new_uuid hash uuid new_hash micros (row ∷ tokens) later
      fresh =
    let rest =
      consume-NoneConsumable now_us later_us new_uuid hash uuid new_hash micros tokens later
        fresh in
    elim (Bool-cases (is_consumable now_us hash uuid row)) [
      | inl matched ↦
          rw matched (
            is_consumable-rotate now_us later_us new_uuid hash uuid new_hash micros row fresh,
            rest,
          )
      | inr other ↦ rw other (is_consumable-later now_us later_us hash uuid row later other, rest)
    ]

pub Outcome-cases {ℓ} : {A : Type ℓ} (o : Outcome A) → (o ≡ thrown) ⊎ ((a : A) × (o ≡ returned a))
Outcome-cases (returned a) = inr (a, refl)
Outcome-cases thrown = inl refl

module _ (hash_binary base64_encode : Bytes → Bytes) (base64_decode : Bytes → Option Bytes) where
  login-refused :
      (clock_us now_us : ℤ) (new_uuid secret_bytes : Bytes) (secrets : Secrets)
      (token_id secret presented : Bytes) (tokens : List DeviceTokenRow)
      → base64_decode secret ≡ some presented
      → NoneConsumable now_us (hash_binary presented) token_id tokens
      → try_login_with_device_token hash_binary base64_encode base64_decode clock_us now_us new_uuid
          secret_bytes secrets token_id secret tokens
        ≡ (none, tokens)
  unfolding try_login_with_device_token
  login-refused clock_us now_us new_uuid secret_bytes secrets token_id secret presented tokens
        decoded none_left =
      let helper =
        device_token_helper hash_binary base64_encode base64_decode clock_us secret_bytes secrets in
      elim (Outcome-cases helper) [
        | inl e ↦ rw (decoded, try_login_with_device_token, e)
        | inr (none, e) ↦ rw (decoded, try_login_with_device_token, e)
        | inr (some (new_hash, new_secret, expires_us), e) ↦ rw (
          decoded,
          try_login_with_device_token,
          e,
          consume-none now_us new_uuid (hash_binary presented) token_id new_hash expires_us tokens
              none_left,
        )
      ]

  -- A device token is good for one login: after a login that succeeded, the same identifier and secret are refused
  -- at that time and at any later time, whatever the configuration is then, and the attempt changes
  -- nothing; provided that the UUID that the database drew is a new one.
  pub try_login_with_device_token-once :
      (clock_us now_us later_clock_us later_us : ℤ)
      (new_uuid secret_bytes newer_uuid newer_bytes : Bytes) (secrets later_secrets : Secrets)
      (token_id secret : Bytes) (tokens after : List DeviceTokenRow) (handed : Bytes × Bytes)
      → now_us ≤ℤ later_us
      → new_uuid ≢ token_id
      → try_login_with_device_token hash_binary base64_encode base64_decode clock_us now_us new_uuid
          secret_bytes secrets token_id secret tokens
        ≡ (some handed, after)
      → try_login_with_device_token hash_binary base64_encode base64_decode later_clock_us later_us
          newer_uuid newer_bytes later_secrets token_id secret after
        ≡ (none, after)
  unfolding try_login_with_device_token
  try_login_with_device_token-once clock_us now_us later_clock_us later_us new_uuid secret_bytes
        newer_uuid newer_bytes secrets later_secrets token_id secret tokens after handed later fresh
        first =
      let helper =
        device_token_helper hash_binary base64_encode base64_decode clock_us secret_bytes secrets in
      elim (Option-cases (base64_decode secret)) [
        | inl bad ↦ absurd (ground arith)
        | inr (presented, decoded) ↦ elim (Outcome-cases helper) [
          | inl e ↦ absurd (ground arith)
          | inr (none, e) ↦ absurd (ground arith)
          | inr (some (new_hash, new_secret, expires_us), e) ↦
              let same : (consume_and_rotate now_us new_uuid (hash_binary presented) token_id
                    new_hash expires_us tokens).1
                  ≡ after =
                ground arith in
              login-refused later_clock_us later_us newer_uuid newer_bytes later_secrets token_id
                secret presented after decoded
                (subst
                  (λ (left : List DeviceTokenRow).
                    NoneConsumable later_us (hash_binary presented) token_id left)
                  same
                  (consume-NoneConsumable now_us later_us new_uuid (hash_binary presented) token_id
                    new_hash expires_us tokens later
                    (ground (arith, bytes_eq_iff new_uuid token_id))))
        ]
      ]
