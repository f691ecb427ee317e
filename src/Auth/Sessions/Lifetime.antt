-- ===== src/Auth/Sessions/Lifetime.antt =====
-- How long a session lasts.
use server_components.Common.Int.{ℤ, ◌+ℤ◌, ltb_ℤ}
use server_components.Common.{
  ◌≡◌, refl, Bool, true, false, Option, none, some, List, [], ◌∷◌, ◌++◌, if◌then◌else◌, arith, All,
  Bytes,
}
use server_components.Foundation.Text.{string_to_bool}
use server_components.Foundation.Numbers.RoundTrip.{IsInt64, stoll-string_from_int}
use server_components.Auth.Secrets.{Secrets}
use server_components.Auth.People.{Person, lookup_person_by_email}
use server_components.Auth.Lockout.{eq_ℤ}
use server_components.Auth.Lockout.Locking.{eq_ℤ_refl}
use server_components.Auth.Tokens.{
  returned, SessionRow, new_session, add_session, lookup_session_by_id, lookup_session_by_uuid,
}
use server_components.Auth.Sessions.{
  verified, required_duration, session_duration_key, create_session_token, person_of_session,
  lookup_person_id_by_session_token,
}

-- The numbers of the row fit their columns.
abbrev pub FitsSession : SessionRow → Type 0
FitsSession row = IsInt64 row.person_id × IsInt64 row.expires_at

-- What the tests on a row decide.
abbrev pub live_person : ℤ → SessionRow → Option ℤ
live_person now_us row =
    if row.revoked then none else if ltb_ℤ row.expires_at now_us then none else some row.person_id

pub person_of_session-live :
    (now_us : ℤ) (row : SessionRow)
    → FitsSession row
    → person_of_session now_us row ≡ live_person now_us row
unfolding person_of_session string_to_bool
person_of_session-live now_us row fits =
    ground (
      arith,
      stoll-string_from_int row.person_id fits.0,
      stoll-string_from_int row.expires_at fits.1,
    )

-- No session of the table has the identifier.
abbrev pub IsNewSessionId : ℤ → List SessionRow → Type 0
IsNewSessionId id sessions = All (λ row. eq_ℤ row.id id ≡ false) sessions

lookup_id-last :
    (id : ℤ) (sessions : List SessionRow) (row : SessionRow)
    → IsNewSessionId id sessions
    → eq_ℤ row.id id ≡ true
    → lookup_session_by_id id (sessions ++ row ∷ []) ≡ returned row
unfolding lookup_session_by_id
lookup_id-last id [] row new same = rw same
lookup_id-last id (other ∷ sessions) row new same =
    rw new.0 (lookup_id-last id sessions row new.1 same)

module _ (uuid_eq : Bytes → Bytes → Bool) where
  -- No session of the table has the token.
  abbrev pub IsNewToken : Bytes → List SessionRow → Type 0
  IsNewToken token sessions = All (λ row. uuid_eq row.uuid token ≡ false) sessions

  lookup-last :
      (token : Bytes) (sessions : List SessionRow) (row : SessionRow)
      → IsNewToken token sessions
      → uuid_eq row.uuid token ≡ true
      → lookup_session_by_uuid uuid_eq token (sessions ++ row ∷ []) ≡ returned row
  unfolding lookup_session_by_uuid
  lookup-last token [] row new same = rw same
  lookup-last token (other ∷ sessions) row new same =
      rw new.0 (lookup-last token sessions row new.1 same)

module _ (citext_eq uuid_eq : Bytes → Bytes → Bool) where
  abbrev pub FoundUntil :
      ℤ → ℤ → ℤ → ℤ → Bytes → ℤ → Secrets → Bytes → List Person → Person → List SessionRow → Type 0
  FoundUntil created_us now_us later_us id uuid duration secrets email people person sessions =
      let (token, after) =
        create_session_token citext_eq created_us now_us id uuid secrets email people sessions in
      (token ≡ returned (some uuid))
      × (lookup_person_id_by_session_token uuid_eq later_us uuid after
          ≡ returned (if ltb_ℤ (now_us +ℤ duration) later_us then none else some person.id))

  -- A session lasts for the configured duration: from its creation for a verified person, its token finds that person up
  -- to the last moment of the duration, and nobody after it. The identifier and the token are new, the token
  -- equals itself, and the number of the person and the end of the session have 64 bits.
  pub create_session_token-lasts :
      (created_us now_us later_us id : ℤ) (uuid : Bytes) (duration : ℤ) (secrets : Secrets)
      (email : Bytes) (people : List Person) (person : Person) (sessions : List SessionRow)
      → lookup_person_by_email citext_eq email people ≡ some person
      → person.email_verified ≡ true
      → required_duration secrets session_duration_key ≡ returned (some duration)
      → IsInt64 person.id
      → IsInt64 (now_us +ℤ duration)
      → IsNewSessionId id sessions
      → IsNewToken uuid_eq uuid sessions
      → uuid_eq uuid uuid ≡ true
      → FoundUntil created_us now_us later_us id uuid duration secrets email people person sessions
  unfolding create_session_token lookup_person_id_by_session_token verified add_session
  create_session_token-lasts created_us now_us later_us id uuid duration secrets email people person
        sessions found is_verified configured fits fits_end new_id new same =
      rw
        (
          configured,
          create_session_token,
          found,
          is_verified,
          stoll-string_from_int person.id fits,
          lookup_id-last id sessions (new_session created_us now_us id uuid person.id duration)
              new_id (eq_ℤ_refl id),
        )
        (
          refl,
          rw (
            lookup_person_id_by_session_token,
            lookup-last uuid_eq uuid sessions
                (new_session created_us now_us id uuid person.id duration) new same,
            person_of_session-live later_us
                (new_session created_us now_us id uuid person.id duration) (fits, fits_end),
          ),
        )
