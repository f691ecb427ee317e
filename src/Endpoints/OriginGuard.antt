-- ===== src/Endpoints/OriginGuard.antt =====
-- components/platform/endpoints/cloudfront_origin_guard.cpp and components/foundation/util/env.cpp.
use server_components.Common.{
  ℕ, ◌≡◌, refl, ◌≢◌, ◌↔◌, inl, inr, Bool, true, false, ◌&&◌, not, Option, none, some, [], ◌∷◌,
  arith, if◌then◌else◌, Bytes, bytes, is_empty, bytes_eq, bytes_eq_iff, bytes_eq_refl, starts_with,
  Bool-cases,
}
use server_components.Endpoints.Requests.{Request, Response, reject, error_body, log_rejection}

-- `getenv` is the environment; a variable that is set may be empty.
unfoldable pub get_env_with_fallback : (Bytes → Option Bytes) → Bytes → Bytes → Option Bytes
get_env_with_fallback getenv primary fallback = elim (getenv primary) [
  | some value ↦ some value
  | none ↦ getenv fallback
]

pub record OriginGuard : Type 0 where
  pub expected_secret : Bytes
  pub active : Bool

-- The constructor, from the value of the variable.
unfoldable pub origin_guard_of : Option Bytes → OriginGuard
origin_guard_of none = record { expected_secret = []; active = false }
origin_guard_of (some val) =
    if is_empty val
    then record { expected_secret = []; active = false }
    else record { expected_secret = val; active = true }

unfoldable pub make_origin_guard : (Bytes → Option Bytes) → OriginGuard
make_origin_guard getenv = origin_guard_of (
    get_env_with_fallback getenv (bytes "HONUWARE_ORIGIN_SECRET")
      (bytes "KNOTTYYOGA_ORIGIN_SECRET"))

abbrev pub health_path_prefix : Bytes
health_path_prefix = bytes "/api/health"

-- The response, `lastRejectLog_`, and whether the rejection is logged.
unfoldable pub before_handle : OriginGuard → ℕ → ℕ → Request → Response → Response × ℕ × Bool
before_handle guard now last req res =
    let presented = req.get_header_value (bytes "X-Origin-Secret") in
    let (logs, last') = log_rejection now last in
    if not guard.active
    then (res, last, false)
    else if starts_with health_path_prefix req.url
    then (res, last, false)
    else if not (is_empty presented) && bytes_eq presented guard.expected_secret
    then (res, last, false)
    else (reject 403 (error_body (bytes "direct_origin_access_forbidden")) res, last', logs)

abbrev or_empty : Option Bytes → Bytes
or_empty none = []
or_empty (some value) = value

-- The secret that the environment gives: the first of the two variables that is set.
abbrev pub secret_of : (Bytes → Option Bytes) → Bytes
secret_of getenv = elim (getenv (bytes "HONUWARE_ORIGIN_SECRET")) [
  | some value ↦ value
  | none ↦ or_empty (getenv (bytes "KNOTTYYOGA_ORIGIN_SECRET"))
]

origin_guard_of_lem :
    (o : Option Bytes)
    → origin_guard_of o
      ≡ record { expected_secret = or_empty o; active = not (is_empty (or_empty o)) }
unfolding origin_guard_of
origin_guard_of_lem none = refl
origin_guard_of_lem (some []) = refl
origin_guard_of_lem (some (c ∷ val)) = refl

secret_of_lem :
    (getenv : Bytes → Option Bytes)
    → or_empty (
        get_env_with_fallback getenv
          (bytes "HONUWARE_ORIGIN_SECRET")
          (bytes "KNOTTYYOGA_ORIGIN_SECRET"))
      ≡ secret_of getenv
unfolding get_env_with_fallback
secret_of_lem getenv = step (getenv (bytes "HONUWARE_ORIGIN_SECRET"))
  where
    step :
        (o : Option Bytes)
        → or_empty
            (elim o [ some value ↦ some value | none ↦ getenv (bytes "KNOTTYYOGA_ORIGIN_SECRET") ])
          ≡ elim o [
            | some value ↦ value
            | none ↦ or_empty (getenv (bytes "KNOTTYYOGA_ORIGIN_SECRET"))
          ]
    step none = refl
    step (some value) = refl

not_hidden :
    (presented : Bytes) (c : ℕ) (secret : Bytes)
    → presented ≡ c ∷ secret
    → not (is_empty presented) && bytes_eq presented (c ∷ secret) ≢ false
not_hidden presented c secret e = rw (e, bytes_eq_refl (c ∷ secret)) (λ f. cc)

rejects_iff :
    (secret : Bytes) (now last : ℕ) (req : Request) (res : Response)
    → res.completed ≡ false
    → let after =
        (before_handle
          (record { expected_secret = secret; active = not (is_empty secret) })
          now
          last
          req
          res).0 in
      ((after.completed ≡ true) ↔ (
        (secret ≢ [])
        × (starts_with health_path_prefix req.url ≡ false)
        × (req.get_header_value (bytes "X-Origin-Secret") ≢ secret)))
      × (after.completed ≡ true → after.code ≡ 403)
unfolding before_handle reject
rejects_iff [] now last req res fresh = ((λ e. cc, λ h. absurd (h.0 refl)), λ e. cc)
rejects_iff (c ∷ secret) now last req res fresh =
    elim (Bool-cases (starts_with health_path_prefix req.url)) [
      | inl health ↦ rw health ((λ e. cc, λ h. cc), λ e. cc)
      | inr other ↦
          let presented = req.get_header_value (bytes "X-Origin-Secret") in
          elim (Bool-cases (not (is_empty presented) && bytes_eq presented (c ∷ secret))) [
            | inl shown ↦
                let same : presented ≡ c ∷ secret =
                  ground (arith, bytes_eq_iff presented (c ∷ secret)) in
                rw (other, shown) ((λ e. cc, λ (s, u, n). absurd (n same)), λ e. cc)
            | inr hidden ↦
                let differs : presented ≢ c ∷ secret =
                  λ e. not_hidden presented c secret e hidden in
                rw (other, hidden) ((λ e. (λ e'. cc, refl, differs), λ h. refl), λ e. refl)
          ]
    ]

-- A guard that the environment sets up answers a request itself, with 403, exactly when the secret is not empty, the
-- path does not begin with the prefix of the health probes, and the header is not the secret. The secret
-- is the canonical variable when that is set, even to nothing, and the legacy one otherwise.
pub before_handle-rejects_iff :
    (getenv : Bytes → Option Bytes) (now last : ℕ) (req : Request) (res : Response)
    → res.completed ≡ false
    → let after = (before_handle (make_origin_guard getenv) now last req res).0 in
      ((after.completed ≡ true) ↔ (
        (secret_of getenv ≢ [])
        × (starts_with health_path_prefix req.url ≡ false)
        × (req.get_header_value (bytes "X-Origin-Secret") ≢ secret_of getenv)))
      × (after.completed ≡ true → after.code ≡ 403)
unfolding make_origin_guard
before_handle-rejects_iff getenv now last req res fresh =
    let value =
      get_env_with_fallback getenv (bytes "HONUWARE_ORIGIN_SECRET")
        (bytes "KNOTTYYOGA_ORIGIN_SECRET") in
    rw (origin_guard_of_lem value, secret_of_lem getenv)
      (rejects_iff (secret_of getenv) now last req res fresh)
