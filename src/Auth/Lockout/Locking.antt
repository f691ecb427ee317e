-- ===== src/Auth/Lockout/Locking.antt =====
-- Failed logins lock the account that the gate reads, and a right password clears the lock.
use server_components.Common.Int.{ℤ, pos, negsuc, ◌+ℤ◌, leb_ℤ, ◌<ℤ◌}
use server_components.Common.{
  ◌≡◌, refl, ap, ◌∙◌, Bool, true, false, none, some, List, [], ◌∷◌, arith, if◌then◌else◌, not, ◌&&◌,
  inl, inr, Bool-cases, Bytes, bytes,
}
use server_components.Foundation.Numbers.RoundTrip.{IsInt64, stoll-string_from_int}
use server_components.Auth.Secrets.{Secrets, stoll_or, lookup_int64_secret}
use server_components.Auth.People.{Person, lookup_person_by_email}
use server_components.Auth.LoginGate.Decisions.{is_active}
use server_components.Auth.Lockout.{
  eq_ℤ, update_by_id, reset_lockout, count_failure, login_verified, login_person, read_bookkeeping,
  locked_or_zero,
}

-- The count that comes next reaches the limit exactly if it is the limit.
reaches_next : (a limit : ℤ) → a <ℤ limit → leb_ℤ limit (a +ℤ pos 1) ≡ eq_ℤ (a +ℤ pos 1) limit
unfolding ◌+ℤ◌
reaches_next (pos n) limit below = ground arith
reaches_next (negsuc n) limit below = ground arith

pub eq_ℤ_refl : (a : ℤ) → eq_ℤ a a ≡ true
eq_ℤ_refl a = ground arith

module _ (citext_eq : Bytes → Bytes → Bool) where
  found-email :
      (email : Bytes) (people : List Person) (person : Person)
      → lookup_person_by_email citext_eq email people ≡ some person
      → citext_eq person.email email ≡ true
  unfolding lookup_person_by_email
  found-email email [] person e = cc
  found-email email (p ∷ people) person e = ground (arith, found-email email people person)

  -- An update that keeps the addresses is seen by the look-up.
  lookup-update_by_id :
      (email : Bytes) (people : List Person) (person : Person) (f : Person → Person)
      → ((p : Person) → (f p).email ≡ p.email)
      → lookup_person_by_email citext_eq email people ≡ some person
      → lookup_person_by_email citext_eq email (update_by_id person.id f people) ≡ some (f person)
  unfolding lookup_person_by_email update_by_id
  lookup-update_by_id email [] person f same e = cc
  lookup-update_by_id email (p ∷ people) person f same e =
      let rest = lookup-update_by_id email people person f same in
      elim (Bool-cases (citext_eq p.email email)) [
        | inl here ↦
            let head : p ≡ person = cc in
            let updated : eq_ℤ p.id person.id ≡ true = rw head (eq_ℤ_refl person.id) in
            let still : citext_eq (f p).email email ≡ true = rw (same p) here in
            rw (updated, still) (ap (λ q. some (f q)) head)
        | inr there ↦
            let tail : lookup_person_by_email citext_eq email people ≡ some person = cc in
            let still : citext_eq (f p).email email ≡ false = rw (same p) there in
            elim (Bool-cases (eq_ℤ p.id person.id)) [
              | inl updated ↦ rw (updated, still) (rest tail)
              | inr kept ↦ rw (kept, there) (rest tail)
            ]
      ]

  module _ (verify_password : Bytes → Bytes → Bool) where
    login_person-found :
        (now_us : ℤ) (secrets : Secrets) (email password : Bytes) (people : List Person)
        (person : Person)
        → lookup_person_by_email citext_eq email people ≡ some person
        → person.email_verified ≡ true
        → IsInt64 person.id
        → login_person citext_eq verify_password now_us secrets email password people
          ≡ login_verified citext_eq verify_password now_us secrets password person people
    unfolding login_person
    login_person-found now_us secrets email password people person found verified fits =
        let id_read = stoll-string_from_int person.id fits in cc

    login_person_outcome :
        (now_us : ℤ) (secrets : Secrets) (email password : Bytes) (people : List Person)
        (person : Person)
        → lookup_person_by_email citext_eq email people ≡ some person
        → person.email_verified ≡ true
        → IsInt64 person.id
        → let threshold =
            lookup_int64_secret secrets (bytes "auth_account_lockout_after_failures") (pos 10) in
          let duration =
            lookup_int64_secret secrets
              (bytes "auth_account_lockout_duration_in_micros")
              (pos 1800000000) in
          let (result, after) =
            login_person citext_eq verify_password now_us secrets email password people in
          (result.success ≡ verify_password password person.password_hash)
          × (lookup_person_by_email citext_eq email after
              ≡ some (
                  if verify_password password person.password_hash
                  then reset_lockout person
                  else count_failure now_us threshold duration person))
    unfolding login_verified
    login_person_outcome now_us secrets email password people person found verified fits =
        let threshold =
          lookup_int64_secret secrets (bytes "auth_account_lockout_after_failures") (pos 10) in
        let duration =
          lookup_int64_secret secrets (bytes "auth_account_lockout_duration_in_micros")
            (pos 1800000000) in
        rw (login_person-found now_us secrets email password people person found verified fits)
          (elim (Bool-cases (verify_password password person.password_hash)) [
            | inl right ↦ rw right (
              refl,
              lookup-update_by_id email people person reset_lockout
                  (λ p. unfold reset_lockout in refl) found,
            )
            | inr wrong ↦ rw wrong (
              refl,
              lookup-update_by_id email people person (count_failure now_us threshold duration)
                  (λ p. unfold count_failure in refl) found,
            )
          ])

    login_person-just_locked :
        (now_us : ℤ) (secrets : Secrets) (email password : Bytes) (people : List Person)
        (person : Person)
        → let threshold =
            lookup_int64_secret secrets (bytes "auth_account_lockout_after_failures") (pos 10) in
          let lock_end =
            now_us
            +ℤ lookup_int64_secret secrets
                (bytes "auth_account_lockout_duration_in_micros")
                (pos 1800000000) in
          lookup_person_by_email citext_eq email people ≡ some person
          → person.email_verified ≡ true
          → IsInt64 person.id
          → IsInt64 (person.failed_login_attempts +ℤ pos 1)
          → IsInt64 lock_end
          → pos 0 <ℤ lock_end
          → (login_person citext_eq verify_password now_us secrets email password
              people).0.just_locked
            ≡ (not (verify_password password person.password_hash)
                && eq_ℤ (person.failed_login_attempts +ℤ pos 1) threshold)
    unfolding login_verified read_bookkeeping count_failure locked_or_zero stoll_or
    login_person-just_locked now_us secrets email password people person found verified fits
          count_fits end_fits positive =
        let read_count = stoll-string_from_int (person.failed_login_attempts +ℤ pos 1) count_fits in
        let read_end = stoll-string_from_int _ end_fits in
        rw (login_person-found now_us secrets email password people person found verified fits)
          (elim (Bool-cases (verify_password password person.password_hash)) [
            | inl right ↦ rw right refl
            | inr wrong ↦
                let threshold =
                  lookup_int64_secret secrets (bytes "auth_account_lockout_after_failures")
                    (pos 10) in
                let failures = person.failed_login_attempts +ℤ pos 1 in
                rw (wrong, read_bookkeeping, read_count)
                  (elim (Bool-cases (leb_ℤ threshold failures)) [
                    | inl reached ↦ rw (reached, stoll_or, read_end) (ground arith)
                    | inr below ↦
                        let differ : eq_ℤ failures threshold ≡ false = ground arith in
                        rw differ refl
                  ])
          ])

    -- Signing in to a known account that has confirmed its address, that is not locked, and whose failures are below the
    -- limit, when the counts and the end of the lock have 64 bits. The right password succeeds, and the account is then
    -- found with its failures and its lock cleared. A wrong password fails, and the account is found with one more
    -- failure; exactly if that reaches the limit, the lock is reported as just set, and the account is found locked from
    -- now for the whole duration.
    pub login_person_lem :
        (now_us : ℤ) (secrets : Secrets) (email password : Bytes) (people : List Person)
        (person : Person)
        → let threshold =
            lookup_int64_secret secrets (bytes "auth_account_lockout_after_failures") (pos 10) in
          let lock_end =
            now_us
            +ℤ lookup_int64_secret secrets
                (bytes "auth_account_lockout_duration_in_micros")
                (pos 1800000000) in
          let failures = person.failed_login_attempts +ℤ pos 1 in
          let right = verify_password password person.password_hash in
          let (result, after) =
            login_person citext_eq verify_password now_us secrets email password people in
          lookup_person_by_email citext_eq email people ≡ some person
          → person.email_verified ≡ true
          → IsInt64 person.id
          → is_active now_us person.locked_until ≡ false
          → person.failed_login_attempts <ℤ threshold
          → IsInt64 failures
          → IsInt64 lock_end
          → pos 0 <ℤ lock_end
          → (result.success ≡ right)
            × (result.just_locked ≡ (not right && eq_ℤ failures threshold))
            × (lookup_person_by_email citext_eq email after
                ≡ some (
                    if right
                    then record person { failed_login_attempts = pos 0; locked_until = none }
                    else record person {
                      failed_login_attempts = failures;
                      locked_until =
                          if eq_ℤ failures threshold then some lock_end else person.locked_until;
                    }))
    unfolding reset_lockout count_failure
    login_person_lem now_us secrets email password people person found verified fits unlocked below
          count_fits end_fits positive =
        let threshold =
          lookup_int64_secret secrets (bytes "auth_account_lockout_after_failures") (pos 10) in
        let lock_end =
          now_us
          +ℤ lookup_int64_secret secrets (bytes "auth_account_lockout_duration_in_micros")
              (pos 1800000000) in
        let (success, refound) =
          login_person_outcome now_us secrets email password people person found verified fits in
        let reaches : leb_ℤ threshold (person.failed_login_attempts +ℤ pos 1)
            ≡ eq_ℤ (person.failed_login_attempts +ℤ pos 1) threshold =
          reaches_next person.failed_login_attempts threshold below in
        (
          success,
          login_person-just_locked now_us secrets email password people person found verified fits
              count_fits end_fits positive,
          refound
              ∙ ap
                  (λ flag. some (
                    if verify_password password person.password_hash
                    then record person { failed_login_attempts = pos 0; locked_until = none }
                    else record person {
                      failed_login_attempts = person.failed_login_attempts +ℤ pos 1;
                      locked_until = if flag then some lock_end else person.locked_until;
                    }))
                  reaches,
        )
