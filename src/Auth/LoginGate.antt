-- ===== src/Auth/LoginGate.antt =====
-- components/platform/business_logic/auth/login_gate.cpp: the check before a password is verified.
pub mod Decisions
use server_components.Common.Int.{ℤ, pos, negsuc, leb_ℤ, ltb_ℤ}
use server_components.Common.{
  ℕ, Bool, true, false, ◌&&◌, not, Option, none, some, List, [], ◌∷◌, map, keep, if◌then◌else◌,
  Bytes, bytes, is_empty,
}
use server_components.Foundation.Numbers.{string_from_int}
use server_components.Auth.Secrets.{Secrets, stoll_or, lookup_int64_secret}
use server_components.Auth.People.{Person}
use server_components.Auth.LoginAttempts.{
  Attempt, recent_failure_count_for_ip, recent_attempt_count_for_ip, recent_failure_count_for_email,
  recent_attempt_count_for_email,
}

pub data LoginGateResult : Type 0 where
  allow : LoginGateResult
  account_locked : LoginGateResult
  rate_limited_email : LoginGateResult
  rate_limited_ip : LoginGateResult

abbrev pub default_login_max_failures_per_email : ℤ
default_login_max_failures_per_email = pos 10

abbrev pub default_login_max_failures_per_ip : ℤ
default_login_max_failures_per_ip = pos 50

abbrev pub default_login_failure_window_micros : ℤ
default_login_failure_window_micros = pos 900000000

abbrev pub default_verify_max_failures_per_ip : ℤ
default_verify_max_failures_per_ip = pos 30

abbrev pub default_verify_failure_window_micros : ℤ
default_verify_failure_window_micros = pos 900000000

abbrev pub default_remember_max_failures_per_ip : ℤ
default_remember_max_failures_per_ip = pos 50

abbrev pub default_remember_failure_window_micros : ℤ
default_remember_failure_window_micros = pos 900000000

abbrev pub default_password_reset_max_requests_per_email : ℤ
default_password_reset_max_requests_per_email = pos 5

abbrev pub default_password_reset_max_requests_per_ip : ℤ
default_password_reset_max_requests_per_ip = pos 20

abbrev pub default_password_reset_request_window_micros : ℤ
default_password_reset_request_window_micros = pos 3600000000

abbrev pub default_password_reset_max_failures_per_ip : ℤ
default_password_reset_max_failures_per_ip = pos 30

abbrev pub default_password_reset_failure_window_micros : ℤ
default_password_reset_failure_window_micros = pos 900000000

-- `SELECT COALESCE(MAX(locked_until), 0) FROM people WHERE email = $1`, over the lock times of the rows.
unfoldable pub max_locked : Option ℤ → List (Option ℤ) → Option ℤ
max_locked best [] = best
max_locked best (none ∷ locks) = max_locked best locks
max_locked none (some t ∷ locks) = max_locked (some t) locks
max_locked (some b) (some t ∷ locks) = max_locked (some (if ltb_ℤ b t then t else b)) locks

unfoldable pub coalesce : ℤ → Option ℤ → ℤ
coalesce default none = default
coalesce default (some v) = v

-- What `now_us()` returns to the three statements that call it.
pub record GateClock : Type 0 where
  pub lock_us : ℤ
  pub email_us : ℤ
  pub ip_us : ℤ

-- `if (failures >= threshold) return limited;`
abbrev limit : ℤ → ℤ → LoginGateResult → LoginGateResult → LoginGateResult
limit count threshold limited next = if leb_ℤ threshold count then limited else next

module _ (citext_eq : Bytes → Bytes → Bool) where
  unfoldable pub locks_of : Bytes → List Person → List (Option ℤ)
  locks_of email people =
      map (λ person. person.locked_until) (keep (λ person. citext_eq person.email email) people)

  -- The first block of `CheckBeforeLogin`.
  unfoldable pub is_locked : ℤ → Bytes → List Person → Bool
  is_locked now_us email people =
      let locked_until =
        stoll_or (pos 0)
          (string_from_int (coalesce (pos 0) (max_locked none (locks_of email people)))) in
      ltb_ℤ (pos 0) locked_until && ltb_ℤ (stoll_or (pos 0) (string_from_int now_us)) locked_until

  unfoldable pub check_before_login :
      GateClock → Secrets → Bytes → Bytes → List Person → List Attempt → LoginGateResult
  check_before_login clock secrets email ip people attempts =
      let window =
        lookup_int64_secret secrets (bytes "auth_login_failure_window_in_micros")
          default_login_failure_window_micros in
      let email_threshold =
        lookup_int64_secret secrets (bytes "auth_login_max_failures_per_email")
          default_login_max_failures_per_email in
      let ip_threshold =
        lookup_int64_secret secrets (bytes "auth_login_max_failures_per_ip")
          default_login_max_failures_per_ip in
      let by_ip =
        if is_empty ip
        then allow
        else limit (recent_failure_count_for_ip clock.ip_us ip (bytes "login") window attempts)
            ip_threshold rate_limited_ip allow in
      if is_empty email
      then by_ip
      else if is_locked clock.lock_us email people
      then account_locked
      else limit
          (recent_failure_count_for_email citext_eq clock.email_us email (bytes "login") window
            attempts)
          email_threshold rate_limited_email by_ip

  unfoldable pub check_before_forgot_password :
      GateClock → Secrets → Bytes → Bytes → List Attempt → LoginGateResult
  check_before_forgot_password clock secrets email ip attempts =
      let window =
        lookup_int64_secret secrets (bytes "auth_password_reset_request_window_in_micros")
          default_password_reset_request_window_micros in
      let email_threshold =
        lookup_int64_secret secrets (bytes "auth_password_reset_max_requests_per_email")
          default_password_reset_max_requests_per_email in
      let ip_threshold =
        lookup_int64_secret secrets (bytes "auth_password_reset_max_requests_per_ip")
          default_password_reset_max_requests_per_ip in
      let by_ip =
        if is_empty ip
        then allow
        else limit
            (recent_attempt_count_for_ip clock.ip_us ip (bytes "password_reset_request") window
              attempts)
            ip_threshold rate_limited_ip allow in
      if is_empty email
      then by_ip
      else limit
          (recent_attempt_count_for_email citext_eq clock.email_us email
            (bytes "password_reset_request") window attempts)
          email_threshold rate_limited_email by_ip

unfoldable pub check_before_verify : ℤ → Secrets → Bytes → List Attempt → LoginGateResult
check_before_verify now_us secrets ip attempts =
    let window =
      lookup_int64_secret secrets (bytes "auth_verify_failure_window_in_micros")
        default_verify_failure_window_micros in
    let threshold =
      lookup_int64_secret secrets (bytes "auth_verify_max_failures_per_ip")
        default_verify_max_failures_per_ip in
    if is_empty ip
    then allow
    else limit (recent_failure_count_for_ip now_us ip (bytes "verify") window attempts) threshold
        rate_limited_ip allow

unfoldable pub check_before_remember : ℤ → Secrets → Bytes → List Attempt → LoginGateResult
check_before_remember now_us secrets ip attempts =
    let window =
      lookup_int64_secret secrets (bytes "auth_remember_failure_window_in_micros")
        default_remember_failure_window_micros in
    let threshold =
      lookup_int64_secret secrets (bytes "auth_remember_max_failures_per_ip")
        default_remember_max_failures_per_ip in
    if is_empty ip
    then allow
    else limit (recent_failure_count_for_ip now_us ip (bytes "remember") window attempts) threshold
        rate_limited_ip allow

unfoldable pub check_before_reset_password : ℤ → Secrets → Bytes → List Attempt → LoginGateResult
check_before_reset_password now_us secrets ip attempts =
    let window =
      lookup_int64_secret secrets (bytes "auth_password_reset_failure_window_in_micros")
        default_password_reset_failure_window_micros in
    let threshold =
      lookup_int64_secret secrets (bytes "auth_password_reset_max_failures_per_ip")
        default_password_reset_max_failures_per_ip in
    if is_empty ip
    then allow
    else limit (recent_failure_count_for_ip now_us ip (bytes "password_reset") window attempts)
        threshold rate_limited_ip allow
