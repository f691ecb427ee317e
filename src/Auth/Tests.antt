-- ===== src/Auth/Tests.antt =====
-- The limits at small tables, and the theorems at them.
use server_components.Common.Int.{ℤ, pos, ◌-ℤ◌, ◌+ℤ◌, leb_ℤ}
use server_components.Common.{
  ◌≡◌, refl, Bool, true, false, ◌&&◌, none, some, List, [], ◌∷◌, arith, if◌then◌else◌, Bytes, bytes,
  bytes_eq, trim_front,
}
use server_components.Foundation.Text.{is_space}
use server_components.Foundation.Numbers.{
  digits_from, string_from_int, is_digit, starts_with_digit, read_digits, unsigned_part,
  negative_part, signed_part, stoll,
}
use server_components.Auth.Secrets.{stoll_or, lookup_int64_secret}
use server_components.Auth.People.{Person, lookup_person_by_email}
use server_components.Auth.LoginAttempts.{
  Attempt, count_of, recent_failure_count_for_ip, recent_failure_count_for_email,
  recent_attempt_count_for_ip, recent_attempt_count_for_email, purge_older_than,
}
use server_components.Auth.LoginAttempts.Purging.{purge_older_than-recent_counts}
use server_components.Auth.LoginGate.{
  account_locked, rate_limited_email, rate_limited_ip, GateClock, max_locked, coalesce, locks_of,
  is_locked, check_before_login, default_login_max_failures_per_email,
  default_login_max_failures_per_ip, default_login_failure_window_micros,
}
use server_components.Auth.LoginGate.Decisions.{
  has_active_lock, email_failures, ip_failures, first_failing, check_before_login_lem,
}
use server_components.Auth.Lockout.{login_person}
use server_components.Auth.Lockout.Locking.{login_person_lem}

abbrev failure : ℤ → Attempt
failure now_us = record {
  email_lower = bytes "a@x";
  ip = bytes "1.2.3.4";
  attempted_at = now_us;
  success = false;
  kind = bytes "login";
}

abbrev attempts : List Attempt
attempts = failure (pos 5) ∷ failure (pos 1000000100) ∷ failure (pos 1000000200) ∷ []

abbrev clock : GateClock
clock = record { lock_us = pos 1000000300; email_us = pos 1000000301; ip_us = pos 1000000302 }

-- Nine failures before this one.
abbrev person : Person
person = record {
  id = pos 7;
  email = bytes "a@x";
  email_verified = true;
  password_hash = bytes "hash";
  failed_login_attempts = pos 9;
  locked_until = none;
}

-- Two failures an email in the secrets, everything else by default.
abbrev secrets : Bytes → Bytes
secrets key = if bytes_eq key (bytes "auth_login_max_failures_per_email") then bytes "2" else []

two_failures_are_too_many :
    check_before_login bytes_eq clock (some secrets) (bytes "a@x") [] (person ∷ []) attempts
    ≡ rate_limited_email
unfolding check_before_login is_locked max_locked coalesce locks_of recent_failure_count_for_email
    count_of stoll_or lookup_int64_secret stoll signed_part unsigned_part negative_part read_digits
    starts_with_digit is_digit trim_front is_space string_from_int digits_from bytes_eq ◌-ℤ◌
two_failures_are_too_many = refl

purge_older_than-recent_counts_example :
    let left = (purge_older_than (pos 1000000300) (pos 900000000) attempts).1 in
    (recent_failure_count_for_ip
        (pos 1000000300)
        (bytes "1.2.3.4")
        (bytes "login")
        (pos 900000000)
        left
      ≡ recent_failure_count_for_ip
          (pos 1000000300)
          (bytes "1.2.3.4")
          (bytes "login")
          (pos 900000000)
          attempts)
    × (recent_attempt_count_for_ip
          (pos 1000000300)
          (bytes "1.2.3.4")
          (bytes "login")
          (pos 900000000)
          left
        ≡ recent_attempt_count_for_ip
            (pos 1000000300)
            (bytes "1.2.3.4")
            (bytes "login")
            (pos 900000000)
            attempts)
    × (recent_failure_count_for_email bytes_eq
          (pos 1000000300)
          (bytes "a@x")
          (bytes "login")
          (pos 900000000)
          left
        ≡ recent_failure_count_for_email bytes_eq
            (pos 1000000300)
            (bytes "a@x")
            (bytes "login")
            (pos 900000000)
            attempts)
    × (recent_attempt_count_for_email bytes_eq
          (pos 1000000300)
          (bytes "a@x")
          (bytes "login")
          (pos 900000000)
          left
        ≡ recent_attempt_count_for_email bytes_eq
            (pos 1000000300)
            (bytes "a@x")
            (bytes "login")
            (pos 900000000)
            attempts)
purge_older_than-recent_counts_example =
    purge_older_than-recent_counts bytes_eq (pos 1000000300) (pos 1000000300) (pos 900000000)
      (pos 900000000) (bytes "a@x") (bytes "1.2.3.4") (bytes "login") attempts (omega arith)
      (omega arith)

check_before_login_lem_example :
    let window =
      lookup_int64_secret
        (some secrets)
        (bytes "auth_login_failure_window_in_micros")
        default_login_failure_window_micros in
    let email_limit =
      lookup_int64_secret
        (some secrets)
        (bytes "auth_login_max_failures_per_email")
        default_login_max_failures_per_email in
    let ip_limit =
      lookup_int64_secret
        (some secrets)
        (bytes "auth_login_max_failures_per_ip")
        default_login_max_failures_per_ip in
    check_before_login bytes_eq clock
      (some secrets)
      (bytes "a@x")
      (bytes "1.2.3.4")
      (person ∷ [])
      attempts
    ≡ first_failing (
        (true && has_active_lock bytes_eq clock.lock_us (bytes "a@x") (person ∷ []), account_locked)
        ∷ (
          true
              && leb_ℤ email_limit (
                  pos (
                    email_failures bytes_eq clock.email_us
                      (bytes "a@x")
                      (bytes "login")
                      window
                      attempts)),
          rate_limited_email,
        )
        ∷ (
          true
              && leb_ℤ ip_limit
                  (pos (ip_failures clock.ip_us (bytes "1.2.3.4") (bytes "login") window attempts)),
          rate_limited_ip,
        )
        ∷ [])
check_before_login_lem_example =
    check_before_login_lem bytes_eq clock (some secrets) (bytes "a@x") (bytes "1.2.3.4")
      (person ∷ []) attempts (omega arith) (tt, tt) (omega arith)

abbrev accepts : Bytes → Bytes → Bool
accepts password hash = bytes_eq password (bytes "right")

found : lookup_person_by_email bytes_eq (bytes "a@x") (person ∷ []) ≡ some person
unfolding lookup_person_by_email bytes_eq
found = refl

login_person_lem_example :
    let (result, after) =
      login_person bytes_eq accepts (pos 1000) none (bytes "a@x") (bytes "wrong") (person ∷ []) in
    (result.success ≡ false)
    × (result.just_locked ≡ true)
    × (lookup_person_by_email bytes_eq (bytes "a@x") after
        ≡ some (record person {
          failed_login_attempts = pos 10;
          locked_until = some (pos 1800001000);
        }))
unfolding lookup_int64_secret bytes_eq ◌+ℤ◌
login_person_lem_example =
    login_person_lem bytes_eq accepts (pos 1000) none (bytes "a@x") (bytes "wrong") (person ∷ [])
      person found refl (omega arith) refl (omega arith) (omega arith) (omega arith) (omega arith)
