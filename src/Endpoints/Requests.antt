-- ===== src/Endpoints/Requests.antt =====
-- What the guards use of Crow's request and response, and their common throttle of log lines.
--
-- The headers are a function, since Crow looks them up. Times are counts of the steady clock in nanoseconds,
-- which does not run backwards.
use server_components.Common.{
  ℕ, ◌-◌, ◌≤◌, ◌+◌, ◌≢◌, Bool, true, false, ◌||◌, List, [], ◌∷◌, ◌++◌, arith, if◌then◌else◌, leb,
  ◌==◌, Bytes, bytes, inl, inr, Bool-cases,
}

pub data HttpMethod : Type 0 where
  post : HttpMethod
  put : HttpMethod
  patch : HttpMethod
  delete : HttpMethod
  other : ℕ → HttpMethod

pub record Request : Type 0 where
  pub method : HttpMethod
  pub url : Bytes
  pub get_header_value : Bytes → Bytes
  pub remote_ip_address : Bytes

pub record Response : Type 0 where
  pub code : ℕ
  pub headers : List (Bytes × Bytes)
  pub body : Bytes
  pub completed : Bool

-- The rejection that each guard writes: status, a JSON body, and `res.end()`. The header is added, to a response that has
-- none of that name yet: Crow's replacement of one that is there is left out.
unfoldable pub reject : ℕ → Bytes → Response → Response
reject code body res = record {
  code = code;
  headers = res.headers ++ (bytes "Content-Type", bytes "application/json") ∷ [];
  body = res.body ++ body;
  completed = true;
}

-- `{"error":"…"}`
unfoldable pub error_body : Bytes → Bytes
error_body error = bytes "{\"error\":\"" ++ (error ++ bytes "\"}")

-- `kRejectLogThrottle`, one minute.
abbrev pub reject_log_throttle : ℕ
reject_log_throttle = 60000000000

-- Whether a rejection is logged at a time, and `lastRejectLog_` afterwards; 0 is its initial value.
unfoldable pub log_rejection : ℕ → ℕ → Bool × ℕ
log_rejection now last =
    if last == 0 || leb reject_log_throttle (now - last) then (true, now) else (false, last)

-- The times at which a guard logs, when it rejects at these times.
unfoldable pub logged_at : ℕ → List ℕ → List ℕ
logged_at last [] = []
logged_at last (now ∷ times) =
    let (logs, last') = log_rejection now last in
    let later = logged_at last' times in if logs then now ∷ later else later

-- At least a minute lies between two neighbours.
abbrev pub AreSpaced : ℕ → List ℕ → Type 0
AreSpaced last [] = Unit
AreSpaced last (t ∷ times) = (last ≢ 0 → last + reject_log_throttle ≤ t) × AreSpaced t times

abbrev pub ArePositive : List ℕ → Type 0
ArePositive [] = Unit
ArePositive (t ∷ times) = (1 ≤ t) × ArePositive times

-- However often a guard rejects, its log lines are at least a minute apart, also from the last one before.
pub logged_at-AreSpaced :
    (last : ℕ) (times : List ℕ) → ArePositive times → AreSpaced last (logged_at last times)
unfolding logged_at log_rejection
logged_at-AreSpaced last [] h = tt
logged_at-AreSpaced last (now ∷ times) (p, h) =
    elim (Bool-cases (last == 0 || leb reject_log_throttle (now - last))) [
      | inl logs ↦ rw logs (ground arith, logged_at-AreSpaced now times h)
      | inr quiet ↦ rw quiet (logged_at-AreSpaced last times h)
    ]
