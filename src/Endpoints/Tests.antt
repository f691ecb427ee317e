-- ===== src/Endpoints/Tests.antt =====
-- The guards at small requests, and the theorems at them.
use server_components.Common.Int.{pos}
use server_components.Common.{
  ◌≡◌, refl, ◌≢◌, ◌↔◌, ◌⊎◌, true, false, not, Option, none, some, List, [], ◌∷◌, ◌++◌, arith,
  if◌then◌else◌, All, Bytes, bytes, bytes_eq, is_empty, starts_with,
}
use server_components.Foundation.Text.{string_trim}
use server_components.Tenancy.Resolver.{
  TenantRow, ControlState, query, control_db_tenant_resolver, find_cached,
}
use server_components.Tenancy.Resolver.Caching.{CacheAgrees}
use server_components.Endpoints.Requests.{post, Request, Response}
use server_components.Endpoints.CsrfGuard.{
  is_blank, bootstrap_paths, path_only, constant_time_equal, get_cookie_value,
}
use server_components.Endpoints.CsrfGuard.Cookies.{cookie_header, first_value, get_cookie_value_lem}
use server_components.Endpoints.OriginGuard.{
  get_env_with_fallback, make_origin_guard, health_path_prefix, secret_of,
  before_handle-rejects_iff,
}
use server_components.Endpoints.ProxyTrust.{
  proxy_trust_enabled, resolve_client_ip, resolve_client_ip_lem,
}
use server_components.Endpoints.TenantGuard.{
  TenancyMode, control, fixed, is_health_path, is_suspended, serving, before_handle-control_lem,
  before_handle-fixed_lem,
}
use server_components.Endpoints.CsrfGuard
use server_components.Endpoints.OriginGuard
use server_components.Endpoints.TenantGuard

abbrev headers : Bytes → Bytes
headers name =
    if bytes_eq name (bytes "Cookie")
    then bytes "a=1; csrft=tok"
    else if bytes_eq name (bytes "X-CSRF-Token")
    then bytes "tok"
    else if bytes_eq name (bytes "X-Origin-Secret")
    then bytes "guess"
    else if bytes_eq name (bytes "X-Honuware-Site")
    then bytes "yoga"
    else if bytes_eq name (bytes "X-Forwarded-For")
    then bytes "10.0.0.1,10.0.0.2"
    else []

abbrev request : Request
request = record {
  method = post;
  url = bytes "/api/pay";
  get_header_value = headers;
  remote_ip_address = bytes "192.168.0.1";
}

abbrev fresh : Response
fresh = record { code = 200; headers = []; body = []; completed = false }

abbrev cookies : List (Bytes × Bytes)
cookies = (bytes "a", bytes "1") ∷ (bytes "csrft", bytes "tok") ∷ []

get_cookie_value_lem_example :
    get_cookie_value (cookie_header cookies) (bytes "csrft") ≡ first_value cookies (bytes "csrft")
unfolding is_blank
get_cookie_value_lem_example = get_cookie_value_lem cookies (bytes "csrft") (ground arith)

abbrev environment : Bytes → Option Bytes
environment name =
    if bytes_eq name (bytes "HONUWARE_ORIGIN_SECRET")
    then some (bytes "s3cret")
    else if bytes_eq name (bytes "KNOTTYYOGA_TRUST_PROXY")
    then some (bytes "True")
    else none

before_handle-rejects_iff_example :
    let after = (OriginGuard.before_handle (make_origin_guard environment) 5 0 request fresh).0 in
    ((after.completed ≡ true) ↔ (
      (secret_of environment ≢ [])
      × (starts_with health_path_prefix (bytes "/api/pay") ≡ false)
      × (headers (bytes "X-Origin-Secret") ≢ secret_of environment)))
    × (after.completed ≡ true → after.code ≡ 403)
before_handle-rejects_iff_example = before_handle-rejects_iff environment 5 0 request fresh refl

resolve_client_ip_lem_example :
    (proxy_trust_enabled environment ≡ false
      → resolve_client_ip environment request ≡ bytes "192.168.0.1")
    × ((viewer hops : Bytes)
        → proxy_trust_enabled environment ≡ true
        → All (λ d. d ≢ b',') viewer
        → (headers (bytes "X-Forwarded-For") ≡ viewer ++ b',' ∷ hops)
          ⊎ (headers (bytes "X-Forwarded-For") ≡ viewer)
        → resolve_client_ip environment request ≡ (
            if not (is_empty (string_trim viewer))
            then string_trim viewer
            else bytes "192.168.0.1"))
resolve_client_ip_lem_example = resolve_client_ip_lem environment request

abbrev row : TenantRow
row = record {
  id = pos 1;
  site_key = bytes "yoga";
  database_name = bytes "db1";
  display_name = bytes "Yoga";
  status = bytes "active";
  max_connections = pos 4;
}

abbrev tenants : ControlState
tenants = record { cache = []; tenants = row ∷ [] }

nothing_cached : CacheAgrees tenants
unfolding find_cached
nothing_cached key context e = cc

no_probe : is_health_path (bytes "/api/pay") ≡ false
unfolding is_health_path starts_with
no_probe = refl

before_handle-control_lem_example :
    let (outcome, after) =
      TenantGuard.before_handle
        (some control_db_tenant_resolver)
        control
        5
        0
        request
        fresh
        tenants in
    let tenant = serving (query (headers (bytes "X-Honuware-Site")) (row ∷ [])) in
    (outcome.tenant ≡ tenant)
    × ((tenant ≡ none) → (outcome.response.completed ≡ true) × (outcome.response.code ≡ 421))
    × ((tenant ≢ none) → outcome.response ≡ fresh)
    × CacheAgrees after
before_handle-control_lem_example =
    before_handle-control_lem 5 0 request fresh tenants refl no_probe nothing_cached
