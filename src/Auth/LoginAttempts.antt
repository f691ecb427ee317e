-- ===== src/Auth/LoginAttempts.antt =====
-- components/platform/sql_util/table_helpers/login_attempts.cpp: the table of sign-in attempts.
--
-- The table is the list of its rows; `now_us()` is what the statement reads. Equality on the CITEXT column
-- of addresses is PostgreSQL's, a parameter.
pub mod Purging
use server_components.Common.Int.{ℤ, pos, negsuc, ◌-ℤ◌, leb_ℤ, ltb_ℤ}
use server_components.Common.{
  ℕ, Bool, true, false, ◌&&◌, not, List, [], ◌∷◌, ◌++◌, if◌then◌else◌, length, keep, Bytes,
  bytes_eq,
}
use server_components.Foundation.Numbers.{string_from_int}
use server_components.Auth.Secrets.{stoll_or}

pub record Attempt : Type 0 where
  pub email_lower : Bytes
  pub ip : Bytes
  pub attempted_at : ℤ
  pub success : Bool
  pub kind : Bytes

unfoldable pub record_attempt : ℤ → Bytes → Bytes → Bytes → Bool → List Attempt → List Attempt
record_attempt now_us email_lower ip kind success rows =
    rows
    ++ record {
      email_lower = email_lower;
      ip = ip;
      attempted_at = now_us;
      success = success;
      kind = kind;
    }
      ∷ []

-- `SELECT count(*)`, which arrives as text and is read by `std::stoll`, 0 if that fails.
unfoldable pub count_of : List Attempt → ℤ
count_of rows = stoll_or (pos 0) (string_from_int (pos (length rows)))

-- `attempted_at >= now_us() - $3::bigint`
abbrev pub is_recent : ℤ → ℤ → Attempt → Bool
is_recent now_us window_us row = leb_ℤ (now_us -ℤ window_us) row.attempted_at

unfoldable pub recent_failure_count_for_ip : ℤ → Bytes → Bytes → ℤ → List Attempt → ℤ
recent_failure_count_for_ip now_us ip kind window_us rows =
    if leb_ℤ window_us (pos 0)
    then pos 0
    else count_of (
        keep
          (λ row.
            bytes_eq row.ip ip
            && bytes_eq row.kind kind
            && not row.success
            && is_recent now_us window_us row)
          rows)

unfoldable pub recent_attempt_count_for_ip : ℤ → Bytes → Bytes → ℤ → List Attempt → ℤ
recent_attempt_count_for_ip now_us ip kind window_us rows =
    if leb_ℤ window_us (pos 0)
    then pos 0
    else count_of (
        keep (λ row. bytes_eq row.ip ip && bytes_eq row.kind kind && is_recent now_us window_us row)
          rows)

module _ (citext_eq : Bytes → Bytes → Bool) where
  unfoldable pub recent_failure_count_for_email : ℤ → Bytes → Bytes → ℤ → List Attempt → ℤ
  recent_failure_count_for_email now_us email_lower kind window_us rows =
      if leb_ℤ window_us (pos 0)
      then pos 0
      else count_of (
          keep
            (λ row.
              citext_eq row.email_lower email_lower
              && bytes_eq row.kind kind
              && not row.success
              && is_recent now_us window_us row)
            rows)

  unfoldable pub recent_attempt_count_for_email : ℤ → Bytes → Bytes → ℤ → List Attempt → ℤ
  recent_attempt_count_for_email now_us email_lower kind window_us rows =
      if leb_ℤ window_us (pos 0)
      then pos 0
      else count_of (
          keep
            (λ row.
              citext_eq row.email_lower email_lower
              && bytes_eq row.kind kind
              && is_recent now_us window_us row)
            rows)

-- `attempted_at < now_us() - $1::bigint`
abbrev pub is_old : ℤ → ℤ → Attempt → Bool
is_old now_us age_us row = ltb_ℤ row.attempted_at (now_us -ℤ age_us)

-- How many rows were deleted, and the rows that are left.
unfoldable pub purge_older_than : ℤ → ℤ → List Attempt → ℤ × List Attempt
purge_older_than now_us age_us rows = if leb_ℤ age_us (pos 0) then (pos 0, rows) else (
  count_of (keep (is_old now_us age_us) rows),
  keep (λ row. not (is_old now_us age_us row)) rows,
)
