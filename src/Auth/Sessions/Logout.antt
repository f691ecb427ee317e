-- ===== src/Auth/Sessions/Logout.antt =====
-- What ends a session, and what leaves it alone.
use server_components.Common.Int.{ℤ}
use server_components.Common.{
  ◌≡◌, subst, ◌≢◌, Bool, false, inl, inr, some, List, [], ◌∷◌, arith, All, Bytes, Bool-cases,
}
use server_components.Auth.Lockout.{eq_ℤ}
use server_components.Auth.Lockout.Locking.{eq_ℤ_refl}
use server_components.Auth.Tokens.{
  returned, SessionRow, lookup_session_by_uuid, remove_sessions_for_user, DeviceTokenRow,
  is_consumable, consume_and_rotate, remove_device_tokens_for_user,
}
use server_components.Auth.Sessions.Lifetime.{FitsSession, person_of_session-live}
use server_components.Auth.Sessions.DeviceTokens.{Outcome-cases}
use server_components.Auth.Sessions.{lookup_person_id_by_session_token, logout_person}

module _ (uuid_eq : Bytes → Bytes → Bool) where
  lookup-keep_ne :
      (token : Bytes) (person_id : ℤ) (sessions : List SessionRow) (row : SessionRow)
      → lookup_session_by_uuid uuid_eq token (remove_sessions_for_user person_id sessions)
        ≡ returned row
      → All FitsSession sessions
      → (eq_ℤ row.person_id person_id ≡ false) × FitsSession row
  unfolding lookup_session_by_uuid remove_sessions_for_user
  lookup-keep_ne token person_id [] row found fits = cc
  lookup-keep_ne token person_id (other ∷ sessions) row found fits =
      elim (Bool-cases (eq_ℤ other.person_id person_id)) [
        | inl gone ↦ lookup-keep_ne token person_id sessions row (ground arith) fits.1
        | inr kept ↦ elim (Bool-cases (uuid_eq other.uuid token)) [
          | inl here ↦
              let same : other ≡ row = ground arith in
              subst (λ (r : SessionRow). (eq_ℤ r.person_id person_id ≡ false) × FitsSession r) same
                (kept, fits.0)
          | inr there ↦ lookup-keep_ne token person_id sessions row (ground arith) fits.1
        ]
      ]

  -- Removing the sessions of one person does not change which session of another person a token finds.
  lookup-keep :
      (token : Bytes) (person_id : ℤ) (sessions : List SessionRow) (row : SessionRow)
      → lookup_session_by_uuid uuid_eq token sessions ≡ returned row
      → eq_ℤ row.person_id person_id ≡ false
      → lookup_session_by_uuid uuid_eq token (remove_sessions_for_user person_id sessions)
        ≡ returned row
  unfolding lookup_session_by_uuid remove_sessions_for_user
  lookup-keep token person_id [] row found other_person = cc
  lookup-keep token person_id (other ∷ sessions) row found other_person =
      elim (Bool-cases (uuid_eq other.uuid token)) [
        | inl here ↦
            let same : other ≡ row = ground arith in
            let stays : eq_ℤ other.person_id person_id ≡ false = rw same other_person in
            ground arith
        | inr there ↦ ground (arith, lookup-keep token person_id sessions row)
      ]

  lookup-All :
      (token : Bytes) (sessions : List SessionRow) (row : SessionRow)
      → lookup_session_by_uuid uuid_eq token sessions ≡ returned row
      → All FitsSession sessions
      → FitsSession row
  unfolding lookup_session_by_uuid
  lookup-All token [] row found fits = cc
  lookup-All token (other ∷ sessions) row found fits =
      elim (Bool-cases (uuid_eq other.uuid token)) [
        | inl here ↦
            let same : other ≡ row = ground arith in
            subst (λ (r : SessionRow). FitsSession r) same fits.0
        | inr there ↦ lookup-All token sessions row (ground arith) fits.1
      ]

-- No login finds the person whose device tokens were removed.
consume-keep_ne :
    (now_us person_id : ℤ) (new_uuid hash uuid new_hash : Bytes) (micros : ℤ)
    (tokens : List DeviceTokenRow)
    → (consume_and_rotate now_us new_uuid hash uuid new_hash micros
        (remove_device_tokens_for_user person_id tokens)).0
      ≢ some (person_id, new_uuid)
unfolding consume_and_rotate remove_device_tokens_for_user
consume-keep_ne now_us person_id new_uuid hash uuid new_hash micros [] = λ e. cc
consume-keep_ne now_us person_id new_uuid hash uuid new_hash micros (row ∷ tokens) = λ e.
    elim (Bool-cases (eq_ℤ row.person_id person_id)) [
      | inl gone ↦
          consume-keep_ne now_us person_id new_uuid hash uuid new_hash micros tokens (ground arith)
      | inr kept ↦ elim (Bool-cases (is_consumable now_us hash uuid row)) [
        | inl here ↦
            let same : row.person_id ≡ person_id = ground arith in
            absurd (ground (arith, eq_ℤ_refl person_id))
        | inr there ↦
            consume-keep_ne now_us person_id new_uuid hash uuid new_hash micros tokens
              (ground arith)
      ]
    ]

module _ (uuid_eq : Bytes → Bytes → Bool) where
  -- When the numbers of the sessions have 64 bits: logging a person out ends every session and every device token of
  -- that person. Whatever token is presented, and whenever, it is not found to be that person's, and whatever
  -- secret is presented, no login finds that person.
  pub logout_person-ends :
      (now_us person_id : ℤ) (token new_uuid old_hash old_uuid new_hash : Bytes) (micros : ℤ)
      (tokens : List DeviceTokenRow) (sessions : List SessionRow)
      → All FitsSession sessions
      → let (tokens_left, sessions_left) = logout_person person_id tokens sessions in
        (lookup_person_id_by_session_token uuid_eq now_us token sessions_left
          ≢ returned (some person_id))
        × ((consume_and_rotate now_us new_uuid old_hash old_uuid new_hash micros tokens_left).0
            ≢ some (person_id, new_uuid))
  unfolding lookup_person_id_by_session_token logout_person
  logout_person-ends now_us person_id token new_uuid old_hash old_uuid new_hash micros tokens
        sessions fits =
      (
        λ said.
            let left = remove_sessions_for_user person_id sessions in
            elim (Outcome-cases (lookup_session_by_uuid uuid_eq token left)) [
              | inl missing ↦ ground arith
              | inr (row, found) ↦
                  let (ne, row_fits) =
                    lookup-keep_ne uuid_eq token person_id sessions row found fits in
                  ground (arith, person_of_session-live now_us row row_fits)
            ],
        consume-keep_ne now_us person_id new_uuid old_hash old_uuid new_hash micros tokens,
      )

  -- When the numbers of the sessions have 64 bits: logging a person out leaves the sessions of everybody else alone. A
  -- token that finds another person finds that person after it too.
  pub logout_person-keeps :
      (now_us person_id other_id : ℤ) (token : Bytes) (tokens : List DeviceTokenRow)
      (sessions : List SessionRow)
      → All FitsSession sessions
      → eq_ℤ other_id person_id ≡ false
      → lookup_person_id_by_session_token uuid_eq now_us token sessions ≡ returned (some other_id)
      → lookup_person_id_by_session_token uuid_eq now_us token
          (logout_person person_id tokens sessions).1
        ≡ returned (some other_id)
  unfolding lookup_person_id_by_session_token logout_person
  logout_person-keeps now_us person_id other_id token tokens sessions fits ne said =
      elim (Outcome-cases (lookup_session_by_uuid uuid_eq token sessions)) [
        | inl missing ↦ absurd (ground arith)
        | inr (row, found) ↦
            let live =
              person_of_session-live now_us row
                (lookup-All uuid_eq token sessions row found fits) in
            let same : row.person_id ≡ other_id = ground arith in
            ground (arith, lookup-keep uuid_eq token person_id sessions row found (rw same ne))
      ]
