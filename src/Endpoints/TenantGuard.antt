-- ===== src/Endpoints/TenantGuard.antt =====
-- components/platform/endpoints/tenant_resolution_guard.cpp, over the interface of a tenant resolver.
use server_components.Tenancy.Resolver.Caching.{CacheAgrees, resolve_control-agrees}
use server_components.Common.{
  ℕ, ◌≡◌, refl, ◌∙◌, ◌≢◌, ◌⊎◌, Bool, true, false, ◌||◌, Option, none, some, [], ◌∷◌, arith,
  if◌then◌else◌, Bytes, bytes, is_empty, bytes_eq, bytes_eq_iff, starts_with, Bool-cases, inl, inr,
}
use server_components.Tenancy.Resolver.{
  TenantContext, TenantResolver, ControlState, query, control_db_tenant_resolver,
  fixed_tenant_resolver,
}
use server_components.Endpoints.Requests.{Request, Response, reject, error_body, log_rejection}
use server_components.Endpoints.OriginGuard.{health_path_prefix}

pub data TenancyMode : Type 0 where
  control : TenancyMode
  fixed : TenancyMode

unfoldable pub is_health_path : Bytes → Bool
is_health_path url = starts_with health_path_prefix url

unfoldable pub is_suspended : Option TenantContext → Bool
is_suspended none = false
is_suspended (some tenant) = bytes_eq tenant.status (bytes "suspended")

-- The status and the error of a failure.
unfoldable pub failure : TenancyMode → Bytes → Option TenantContext → ℕ × Bytes
failure control site_key resolved = (
  421,
  if is_suspended resolved
      then bytes "site_suspended"
      else if is_empty site_key
      then bytes "missing_site_header"
      else bytes "unknown_site",
)
failure fixed site_key resolved = (400, bytes "site_mismatch")

-- What a request comes to: the response, the tenant of `ctx`, `lastRejectLog_`, and whether it is logged.
pub record Outcome : Type 0 where
  pub response : Response
  pub tenant : Option TenantContext
  pub last_reject_log : ℕ
  pub logs : Bool

unfoldable pub passed : ℕ → Option TenantContext → Response → Outcome
passed last tenant res = record {
  response = res;
  tenant = tenant;
  last_reject_log = last;
  logs = false;
}

unfoldable pub refused : ℕ → ℕ → ℕ × Bytes → Response → Outcome
refused now last (code, error) res = record {
  response = reject code (error_body error) res;
  tenant = none;
  last_reject_log = (log_rejection now last).1;
  logs = (log_rejection now last).0;
}

-- What is done with the answer of the resolver.
unfoldable pub settle : TenancyMode → ℕ → ℕ → Bytes → Option TenantContext → Response → Outcome
settle mode now last site_key none res = refused now last (failure mode site_key none) res
settle mode now last site_key (some tenant) res =
    if is_suspended (some tenant)
    then refused now last (failure mode site_key (some tenant)) res
    else passed last (some tenant) res

module _ {S : Type 0} where
  -- The state of the resolver goes through; `none` is a guard on which no resolver has been set.
  unfoldable pub before_handle :
      Option (TenantResolver S) → TenancyMode → ℕ → ℕ → Request → Response → S → Outcome × S
  before_handle none mode now last req res s = (passed last none res, s)
  before_handle (some resolver) mode now last req res s =
      let site_key = req.get_header_value (bytes "X-Honuware-Site") in
      let (resolved, s') = resolver.resolve site_key s in
      if is_health_path req.url
      then (passed last none res, s)
      else (settle mode now last site_key resolved res, s')

-- The tenant that a site key stands for in the table, unless it is suspended.
abbrev pub serving : Option TenantContext → Option TenantContext
serving none = none
serving (some tenant) = if is_suspended (some tenant) then none else some tenant

settle_lem :
    (mode : TenancyMode) (now last : ℕ) (site_key : Bytes) (resolved : Option TenantContext)
    (res : Response)
    → res.completed ≡ false
    → let outcome = settle mode now last site_key resolved res in
      (outcome.tenant ≡ serving resolved)
      × ((serving resolved ≡ none)
          → (outcome.response.completed ≡ true)
            × (outcome.response.code ≡ (failure mode site_key resolved).0))
      × ((serving resolved ≢ none) → outcome.response ≡ res)
unfolding settle refused passed reject
settle_lem mode now last site_key none res fresh = (refl, (λ e. (refl, refl)), λ n. absurd (n refl))
settle_lem mode now last site_key (some tenant) res fresh =
    elim (Bool-cases (is_suspended (some tenant))) [
      | inl stopped ↦ rw stopped (refl, (λ e. (refl, refl)), λ n. absurd (n refl))
      | inr serves ↦ rw serves (refl, (λ e. cc), λ n. refl)
    ]

-- In control mode, when the cache agrees with the table: a request that is no health probe gets the tenant of its site
-- key exactly as the table has it now, its response untouched; when the table has none for the key, or a suspended
-- one, it gets no tenant and is answered with 421. The cache still agrees with the table afterwards.
pub before_handle-control_lem :
    (now last : ℕ) (req : Request) (res : Response) (s : ControlState)
    → res.completed ≡ false
    → is_health_path req.url ≡ false
    → CacheAgrees s
    → let (outcome, after) =
        before_handle (some control_db_tenant_resolver) control now last req res s in
      let tenant = serving (query (req.get_header_value (bytes "X-Honuware-Site")) s.tenants) in
      (outcome.tenant ≡ tenant)
      × ((tenant ≡ none) → (outcome.response.completed ≡ true) × (outcome.response.code ≡ 421))
      × ((tenant ≢ none) → outcome.response ≡ res)
      × CacheAgrees after
unfolding before_handle control_db_tenant_resolver failure
before_handle-control_lem now last req res s fresh probe agrees =
    let site_key = req.get_header_value (bytes "X-Honuware-Site") in
    let (answer, same, still) = resolve_control-agrees site_key s agrees in
    let (tenant, refuses, passes) =
      settle_lem control now last site_key (query site_key s.tenants) res fresh in
    rw (probe, answer) (tenant, refuses, passes, still)

own_key : (key own : Bytes) → (key ≡ []) ⊎ (key ≡ own) → (is_empty key || bytes_eq key own) ≡ true
own_key key own (inl e) = rw e refl
own_key [] own (inr e) = refl
own_key (c ∷ key) own (inr e) = ground (arith, bytes_eq_iff (c ∷ key) own)

other_key : (key own : Bytes) → key ≢ [] → key ≢ own → (is_empty key || bytes_eq key own) ≡ false
other_key [] own n m = absurd (n refl)
other_key (c ∷ key) own n m = ground (arith, bytes_eq_iff (c ∷ key) own)

-- In fixed mode the tenant of the configuration, when it is not suspended, serves every request without a site header or
-- with its own key, and any other key is answered with 400.
pub before_handle-fixed_lem :
    (context : TenantContext) (now last : ℕ) (req : Request) (res : Response)
    → res.completed ≡ false
    → is_health_path req.url ≡ false
    → is_suspended (some context) ≡ false
    → let site_key = req.get_header_value (bytes "X-Honuware-Site") in
      let outcome =
        (before_handle (some (fixed_tenant_resolver context)) fixed now last req res tt).0 in
      ((site_key ≡ []) ⊎ (site_key ≡ context.site_key)
        → (outcome.tenant ≡ some context) × (outcome.response ≡ res))
      × (site_key ≢ []
          → site_key ≢ context.site_key
          → (outcome.tenant ≡ none)
            × (outcome.response.completed ≡ true)
            × (outcome.response.code ≡ 400))
unfolding before_handle fixed_tenant_resolver failure
before_handle-fixed_lem context now last req res fresh probe serves =
    let site_key = req.get_header_value (bytes "X-Honuware-Site") in
    (
      λ known.
          rw (probe, own_key site_key context.site_key known)
            (let (tenant, refuses, passes) =
                settle_lem fixed now last site_key (some context) res fresh in
              (tenant ∙ served, passes (rw served (λ e. cc)))),
      λ given other.
          rw (probe, other_key site_key context.site_key given other)
            (let (tenant, refuses, passes) = settle_lem fixed now last site_key none res fresh in
              let (ended, code) = refuses refl in (tenant, ended, code)),
    )
  where
    served : serving (some context) ≡ some context
    served = rw serves refl
