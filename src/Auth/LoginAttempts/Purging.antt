-- ===== src/Auth/LoginAttempts/Purging.antt =====
-- The clean-up of old attempts does not change what the limits see.
use server_components.Common.Int.{ℤ, pos, -ℤ_parts, ◌≤ℤ◌, leb_ℤ}
use server_components.Common.{
  ◌≡◌, ap, Bool, true, not, List, arith, if◌then◌else◌, keep, keep-keep, inl, inr, Bool-cases,
  Bytes,
}
use server_components.Auth.LoginAttempts.{
  Attempt, count_of, is_recent, is_old, recent_failure_count_for_ip, recent_attempt_count_for_ip,
  recent_failure_count_for_email, recent_attempt_count_for_email, purge_older_than,
}

-- A row that is recent now was not old at the clean-up.
is_recent-not_old :
    (now_us later_us age_us window_us : ℤ) (row : Attempt)
    → now_us ≤ℤ later_us
    → window_us ≤ℤ age_us
    → is_recent later_us window_us row ≡ true
    → not (is_old now_us age_us row) ≡ true
is_recent-not_old now_us later_us age_us window_us row h k r =
    ground (arith, -ℤ_parts now_us age_us, -ℤ_parts later_us window_us)

kept :
    (now_us later_us age_us window_us : ℤ) (matches : Attempt → Bool) (rows : List Attempt)
    → now_us ≤ℤ later_us
    → window_us ≤ℤ age_us
    → ((row : Attempt) → matches row ≡ true → is_recent later_us window_us row ≡ true)
    → keep matches (purge_older_than now_us age_us rows).1 ≡ keep matches rows
unfolding purge_older_than
kept now_us later_us age_us window_us matches rows h k m =
    elim (Bool-cases (leb_ℤ age_us (pos 0))) [
      | inl none_purged ↦ rw none_purged
      | inr some_purged ↦ rw some_purged (
          keep-keep matches (λ row. not (is_old now_us age_us row)) rows
            (λ row r. is_recent-not_old now_us later_us age_us window_us row h k (m row r)))
    ]

module _ (citext_eq : Bytes → Bytes → Bool) where
  -- When the purge keeps rows for at least as long as a window, every count over the window is the same after the
  -- purge, at that time and at every later time: failures and requests, for each address and each IP.
  pub purge_older_than-recent_counts :
      (now_us later_us age_us window_us : ℤ) (email ip kind : Bytes) (rows : List Attempt)
      → now_us ≤ℤ later_us
      → window_us ≤ℤ age_us
      → let left = (purge_older_than now_us age_us rows).1 in
        (recent_failure_count_for_ip later_us ip kind window_us left
          ≡ recent_failure_count_for_ip later_us ip kind window_us rows)
        × (recent_attempt_count_for_ip later_us ip kind window_us left
            ≡ recent_attempt_count_for_ip later_us ip kind window_us rows)
        × (recent_failure_count_for_email citext_eq later_us email kind window_us left
            ≡ recent_failure_count_for_email citext_eq later_us email kind window_us rows)
        × (recent_attempt_count_for_email citext_eq later_us email kind window_us left
            ≡ recent_attempt_count_for_email citext_eq later_us email kind window_us rows)
  unfolding recent_failure_count_for_ip recent_attempt_count_for_ip recent_failure_count_for_email
      recent_attempt_count_for_email
  purge_older_than-recent_counts now_us later_us age_us window_us email ip kind rows h k =
      let count : List Attempt → ℤ =
        λ kept_rows. if leb_ℤ window_us (pos 0) then pos 0 else count_of kept_rows in
      (
        ap count (kept now_us later_us age_us window_us _ rows h k (λ row r. ground arith)),
        ap count (kept now_us later_us age_us window_us _ rows h k (λ row r. ground arith)),
        ap count (kept now_us later_us age_us window_us _ rows h k (λ row r. ground arith)),
        ap count (kept now_us later_us age_us window_us _ rows h k (λ row r. ground arith)),
      )
