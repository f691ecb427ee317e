-- ===== src/Endpoints/CsrfGuard.antt =====
-- components/platform/endpoints/csrf_guard.cpp: state-changing requests carry the token of the cookie.
--
-- `sodium_memcmp` is a parameter; it is called on texts of the same length.
pub mod Cookies
pub mod Deciding
use server_components.Common.{
  ℕ, zero, suc, ◌+◌, Bool, true, false, ◌&&◌, ◌||◌, not, Option, none, some, List, [], ◌∷◌,
  if◌then◌else◌, ◌==◌, length, take, drop, any, Bytes, bytes, is_empty, bytes_eq, find_byte,
  trim_with,
}
use server_components.Endpoints.Requests.{
  HttpMethod, post, put, patch, delete, other, Request, Response, reject, error_body, log_rejection,
}

unfoldable pub bootstrap_paths : List Bytes
bootstrap_paths =
    bytes "/api/login"
    ∷ bytes "/api/register"
    ∷ bytes "/api/remember"
    ∷ bytes "/api/verify"
    ∷ bytes "/api/forgot_password"
    ∷ bytes "/api/reset_password"
    ∷ []

unfoldable pub path_only : Bytes → Bytes
path_only url = elim (find_byte b'?' url) [ none ↦ url | some q ↦ take q url ]

unfoldable pub is_bootstrap : Bytes → Bool
is_bootstrap url = any (bytes_eq (path_only url)) bootstrap_paths

unfoldable pub is_state_changing : HttpMethod → Bool
is_state_changing post = true
is_state_changing put = true
is_state_changing patch = true
is_state_changing delete = true
is_state_changing (other m) = false

unfoldable pub is_blank : ℕ → Bool
is_blank c = c == b' ' || c == 9

unfoldable pub trim : Bytes → Bytes
trim s = trim_with is_blank s

-- What stands before the next semicolon, and what follows it.
unfoldable pub before_semi : Bytes → Bytes
before_semi rest = elim (find_byte b';' rest) [ none ↦ rest | some semi ↦ take semi rest ]

unfoldable pub after_semi : Bytes → Option Bytes
after_semi rest = elim (find_byte b';' rest) [
  | none ↦ none
  | some semi ↦ some (drop (suc semi) rest)
]

-- The value of a trimmed pair when it has this name; else what the later pairs give.
unfoldable pub value_of_pair : Bytes → Bytes → Bytes → Bytes
value_of_pair pair name next = elim (find_byte b'=' pair) [
  | none ↦ next
  | some eq ↦ if bytes_eq (trim (take eq pair)) name then trim (drop (suc eq) pair) else next
]

-- The loop of `GetCookieValue` over what remains of the header, on fuel: each round passes a semicolon.
unfoldable pub cookie_from : ℕ → Bytes → Bytes → Bytes
cookie_from zero rest name = []
cookie_from (suc fuel) rest name =
    let next : Bytes = elim (after_semi rest) [
      | none ↦ []
      | some more ↦ cookie_from fuel more name
    ] in
    value_of_pair (trim (before_semi rest)) name next

unfoldable pub get_cookie_value : Bytes → Bytes → Bytes
get_cookie_value header name = cookie_from (suc (length header)) header name

pub data Reason : Type 0 where
  cookie_missing : Reason
  header_missing : Reason
  mismatch : Reason

module _ (sodium_memcmp : Bytes → Bytes → Bool) where
  -- `AuthHelper::ConstantTimeEqual`; the parameter says whether `sodium_memcmp` returns 0.
  unfoldable pub constant_time_equal : Bytes → Bytes → Bool
  constant_time_equal a b =
      if not (length a == length b) then false else if is_empty a then true else sodium_memcmp a b

  -- The response, `lastRejectLog_` and the log line, from the time and `lastRejectLog_` before.
  unfoldable pub before_handle : Bool → ℕ → ℕ → Request → Response → Response × ℕ × Option Reason
  before_handle enabled now last req res =
      let csrft = get_cookie_value (req.get_header_value (bytes "Cookie")) (bytes "csrft") in
      let presented = req.get_header_value (bytes "X-CSRF-Token") in
      let (logs, last') = log_rejection now last in
      let reason =
        if is_empty csrft
        then cookie_missing
        else if is_empty presented
        then header_missing
        else mismatch in
      if not enabled
      then (res, last, none)
      else if not (is_state_changing req.method)
      then (res, last, none)
      else if is_bootstrap req.url
      then (res, last, none)
      else if not (is_empty csrft)
          && not (is_empty presented)
          && constant_time_equal csrft presented
      then (res, last, none)
      else (
        reject 403 (error_body (bytes "csrf_token_missing_or_invalid")) res,
        last',
        if logs then some reason else none,
      )
