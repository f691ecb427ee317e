-- ===== src/Auth/LoginGate/Decisions.antt =====
-- What the gate decides, against the rows of the tables.
use server_components.Common.Int.{ℤ, pos, leb_ℤ, ltb_ℤ}
use server_components.Common.{
  ℕ, ◌≡◌, refl, sym, ap, ◌∙◌, ◌≤◌, Bool, true, false, ◌&&◌, ◌||◌, not, Option, none, some, List, [],
  ◌∷◌, arith, if◌then◌else◌, any, keep, keep-nothing, length, length-keep-le, All, inl, inr,
  Bool-cases, Bytes, bytes, bytes_eq, is_empty,
}
use server_components.Foundation.Numbers.{string_from_int, stoll, int64_max}
use server_components.Foundation.Numbers.RoundTrip.{IsInt64, stoll-string_from_int}
use server_components.Auth.Secrets.{Secrets, stoll_or, lookup_int64_secret}
use server_components.Auth.People.{Person}
use server_components.Auth.LoginAttempts.{
  Attempt, count_of, is_recent, recent_failure_count_for_ip, recent_failure_count_for_email,
}
use server_components.Auth.LoginGate.{
  LoginGateResult, allow, account_locked, rate_limited_email, rate_limited_ip, GateClock,
  max_locked, coalesce, locks_of, is_locked, check_before_login,
  default_login_max_failures_per_email, default_login_max_failures_per_ip,
  default_login_failure_window_micros,
}

stoll_or-some :
    (fallback : ℤ) (val : Bytes) (v : ℤ) → stoll val ≡ some v → stoll_or fallback val ≡ v
unfolding stoll_or
stoll_or-some fallback val v e = cc

pub stoll_or-string_from_int :
    (fallback v : ℤ) → IsInt64 v → stoll_or fallback (string_from_int v) ≡ v
stoll_or-string_from_int fallback v h =
    stoll_or-some fallback (string_from_int v) v (stoll-string_from_int v h)

-- A table has fewer rows than `bigint` counts.
pub count_of_lem :
    (rows : List Attempt) → length rows ≤ int64_max → count_of rows ≡ pos (length rows)
unfolding count_of
count_of_lem rows h = stoll_or-string_from_int (pos 0) (pos (length rows)) h

-- A lock that lasts beyond a time.
abbrev exceeds : ℤ → Option ℤ → Bool
exceeds now none = false
exceeds now (some t) = ltb_ℤ now t

max_locked_lem :
    (now : ℤ) (best : Option ℤ) (locks : List (Option ℤ))
    → exceeds now (max_locked best locks) ≡ exceeds now best || any (exceeds now) locks
unfolding max_locked
max_locked_lem now none [] = refl
max_locked_lem now (some b) [] = ground arith
max_locked_lem now best (none ∷ locks) = max_locked_lem now best locks
max_locked_lem now none (some t ∷ locks) = max_locked_lem now (some t) locks
max_locked_lem now (some b) (some t ∷ locks) =
    max_locked_lem now (some (if ltb_ℤ b t then t else b)) locks ∙ ground arith

-- Locked at a time: the lock lies in the future, and it is not the zero that stands for none.
abbrev pub is_active : ℤ → Option ℤ → Bool
is_active now none = false
is_active now (some t) = ltb_ℤ (pos 0) t && ltb_ℤ now t

abbrev later : ℤ → ℤ → ℤ
later a b = if ltb_ℤ a b then b else a

is_active-exceeds :
    (now : ℤ) (lock : Option ℤ) → is_active now lock ≡ exceeds (later (pos 0) now) lock
is_active-exceeds now none = refl
is_active-exceeds now (some t) = ground arith

any_active :
    (now : ℤ) (locks : List (Option ℤ))
    → any (is_active now) locks ≡ any (exceeds (later (pos 0) now)) locks
any_active now [] = refl
any_active now (l ∷ locks) = rw (is_active-exceeds now l, any_active now locks)

abbrev pub FitsLock : Option ℤ → Type 0
FitsLock none = Unit
FitsLock (some t) = IsInt64 t

max_locked-FitsLock :
    (best : Option ℤ) (locks : List (Option ℤ))
    → FitsLock best
    → All FitsLock locks
    → FitsLock (max_locked best locks)
unfolding max_locked
max_locked-FitsLock best [] h a = h
max_locked-FitsLock best (none ∷ locks) h (u, a) = max_locked-FitsLock best locks h a
max_locked-FitsLock none (some t ∷ locks) h (k, a) = max_locked-FitsLock (some t) locks k a
max_locked-FitsLock (some b) (some t ∷ locks) h (k, a) =
    max_locked-FitsLock (some (if ltb_ℤ b t then t else b)) locks
      (elim (Bool-cases (ltb_ℤ b t)) [ inl e ↦ rw e k | inr e ↦ rw e h ]) a

window_count :
    (window_us : ℤ) (rows : List Attempt)
    → length rows ≤ int64_max
    → (matches : Attempt → Bool)
    → (if leb_ℤ window_us (pos 0) then pos 0 else count_of (keep matches rows))
      ≡ pos (length (keep (λ row. ltb_ℤ (pos 0) window_us && matches row) rows))
window_count window_us rows h matches = elim (Bool-cases (leb_ℤ window_us (pos 0))) [
  | inl closed ↦
      let off : ltb_ℤ (pos 0) window_us ≡ false = ground arith in
      rw (closed, off) (ap (λ kept. pos (length kept)) (sym (keep-nothing rows)))
  | inr wide ↦
      let on : ltb_ℤ (pos 0) window_us ≡ true = ground arith in
      let fewer : length (keep matches rows) ≤ int64_max =
        omega (arith, length-keep-le matches rows) in
      rw (wide, on) (count_of_lem (keep matches rows) fewer)
]

coalesce-IsInt64 : (lock : Option ℤ) → FitsLock lock → IsInt64 (coalesce (pos 0) lock)
unfolding coalesce
coalesce-IsInt64 none h = omega arith
coalesce-IsInt64 (some t) h = h

is_active-coalesce :
    (now : ℤ) (lock : Option ℤ)
    → ltb_ℤ (pos 0) (coalesce (pos 0) lock) && ltb_ℤ now (coalesce (pos 0) lock)
      ≡ is_active now lock
unfolding coalesce
is_active-coalesce now none = refl
is_active-coalesce now (some t) = refl

abbrev pub FitsPerson : Person → Type 0
FitsPerson person = FitsLock person.locked_until

module _ (citext_eq : Bytes → Bytes → Bool) where
  -- Some account of this address is locked at this time.
  abbrev pub has_active_lock : ℤ → Bytes → List Person → Bool
  has_active_lock now_us email people =
      any (λ person. citext_eq person.email email && is_active now_us person.locked_until) people

  locks_of-FitsLock :
      (email : Bytes) (people : List Person)
      → All FitsPerson people
      → All FitsLock (locks_of citext_eq email people)
  unfolding locks_of
  locks_of-FitsLock email [] a = tt
  locks_of-FitsLock email (person ∷ people) (h, a) =
      elim (Bool-cases (citext_eq person.email email)) [
        | inl e ↦ rw e (h, locks_of-FitsLock email people a)
        | inr e ↦ rw e (locks_of-FitsLock email people a)
      ]

  locks_of_lem :
      (now_us : ℤ) (email : Bytes) (people : List Person)
      → any (is_active now_us) (locks_of citext_eq email people)
        ≡ has_active_lock now_us email people
  unfolding locks_of
  locks_of_lem now_us email [] = refl
  locks_of_lem now_us email (person ∷ people) = elim (Bool-cases (citext_eq person.email email)) [
    | inl e ↦ rw (e, locks_of_lem now_us email people)
    | inr e ↦ rw e (locks_of_lem now_us email people)
  ]

  is_locked_lem :
      (now_us : ℤ) (email : Bytes) (people : List Person)
      → IsInt64 now_us
      → All FitsPerson people
      → is_locked citext_eq now_us email people ≡ has_active_lock now_us email people
  unfolding is_locked
  is_locked_lem now_us email people h a =
      let locks = locks_of citext_eq email people in
      let best = max_locked none locks in
      let fits : IsInt64 (coalesce (pos 0) best) =
        coalesce-IsInt64 best
          (max_locked-FitsLock none locks tt (locks_of-FitsLock email people a)) in
      rw
        (
          stoll_or-string_from_int (pos 0) (coalesce (pos 0) best) fits,
          stoll_or-string_from_int (pos 0) now_us h,
        )
        (is_active-coalesce now_us best
          ∙ is_active-exceeds now_us best
          ∙ max_locked_lem (later (pos 0) now_us) none locks
          ∙ sym (any_active now_us locks)
          ∙ locks_of_lem now_us email people)

  -- The failed attempts of a kind in the window, of an address and of an IP.
  abbrev pub email_failures : ℤ → Bytes → Bytes → ℤ → List Attempt → ℕ
  email_failures now_us email kind window_us rows = length (
      keep
        (λ row.
          ltb_ℤ (pos 0) window_us
          && (citext_eq row.email_lower email
              && bytes_eq row.kind kind
              && not row.success
              && is_recent now_us window_us row))
        rows)

  recent_failure_count_for_email_lem :
      (now_us : ℤ) (email kind : Bytes) (window_us : ℤ) (rows : List Attempt)
      → length rows ≤ int64_max
      → recent_failure_count_for_email citext_eq now_us email kind window_us rows
        ≡ pos (email_failures now_us email kind window_us rows)
  unfolding recent_failure_count_for_email
  recent_failure_count_for_email_lem now_us email kind window_us rows h =
      window_count window_us rows h (λ row.
        citext_eq row.email_lower email
        && bytes_eq row.kind kind
        && not row.success
        && is_recent now_us window_us row)

abbrev pub ip_failures : ℤ → Bytes → Bytes → ℤ → List Attempt → ℕ
ip_failures now_us ip kind window_us rows = length (
    keep
      (λ row.
        ltb_ℤ (pos 0) window_us
        && (bytes_eq row.ip ip
            && bytes_eq row.kind kind
            && not row.success
            && is_recent now_us window_us row))
      rows)

pub recent_failure_count_for_ip_lem :
    (now_us : ℤ) (ip kind : Bytes) (window_us : ℤ) (rows : List Attempt)
    → length rows ≤ int64_max
    → recent_failure_count_for_ip now_us ip kind window_us rows
      ≡ pos (ip_failures now_us ip kind window_us rows)
unfolding recent_failure_count_for_ip
recent_failure_count_for_ip_lem now_us ip kind window_us rows h =
    window_count window_us rows h (λ row.
      bytes_eq row.ip ip
      && bytes_eq row.kind kind
      && not row.success
      && is_recent now_us window_us row)

-- The first reason that applies.
abbrev pub first_failing : List (Bool × LoginGateResult) → LoginGateResult
first_failing [] = allow
first_failing ((applies, reason) ∷ reasons) = if applies then reason else first_failing reasons

module _ (citext_eq : Bytes → Bytes → Bool) where
  -- When the tables hold 64-bit times and no more rows than those count: the gate of the login returns the first
  -- reason that applies and lets the request pass when none does. With an address: one of its accounts
  -- is locked beyond now; its failed logins in the window reach the limit. With an IP: its failed logins
  -- in the window reach the limit.
  pub check_before_login_lem :
      (clock : GateClock) (secrets : Secrets) (email ip : Bytes) (people : List Person)
      (attempts : List Attempt)
      → IsInt64 clock.lock_us
      → All FitsPerson people
      → length attempts ≤ int64_max
      → let window =
          lookup_int64_secret secrets
            (bytes "auth_login_failure_window_in_micros")
            default_login_failure_window_micros in
        let email_limit =
          lookup_int64_secret secrets
            (bytes "auth_login_max_failures_per_email")
            default_login_max_failures_per_email in
        let ip_limit =
          lookup_int64_secret secrets
            (bytes "auth_login_max_failures_per_ip")
            default_login_max_failures_per_ip in
        check_before_login citext_eq clock secrets email ip people attempts
        ≡ first_failing (
            (
              not (is_empty email) && has_active_lock citext_eq clock.lock_us email people,
              account_locked,
            )
            ∷ (
              not (is_empty email)
                  && leb_ℤ email_limit (
                      pos (
                        email_failures citext_eq clock.email_us email
                          (bytes "login")
                          window
                          attempts)),
              rate_limited_email,
            )
            ∷ (
              not (is_empty ip)
                  && leb_ℤ ip_limit
                      (pos (ip_failures clock.ip_us ip (bytes "login") window attempts)),
              rate_limited_ip,
            )
            ∷ [])
  unfolding check_before_login
  check_before_login_lem clock secrets email ip people attempts h fits few =
      let window =
        lookup_int64_secret secrets (bytes "auth_login_failure_window_in_micros")
          default_login_failure_window_micros in
      rw
        (
          is_locked_lem citext_eq clock.lock_us email people h fits,
          recent_failure_count_for_email_lem citext_eq clock.email_us email (bytes "login") window
              attempts few,
          recent_failure_count_for_ip_lem clock.ip_us ip (bytes "login") window attempts few,
        )
        (ground arith)
