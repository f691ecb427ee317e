-- ===== src/Tenancy/Resolver.antt =====
-- components/platform/business_logic/tenancy/tenant_resolver.cpp: from the site key to the tenant.
--
-- A resolver is an interface over its state; the guard uses nothing else. The state of the resolver of the control
-- database is its cache, with the table of tenants that it queries.
pub mod Caching
use mathlib.Core.Option
use server_components.Common.Int.{ℤ}
use server_components.Common.{
  Bool, true, false, ◌||◌, not, Option, none, some, List, [], ◌∷◌, if◌then◌else◌, keep, Bytes,
  is_empty, bytes_eq,
}

pub record TenantContext : Type 0 where
  pub tenant_id : ℤ
  pub site_key : Bytes
  pub database_name : Bytes
  pub display_name : Bytes
  pub status : Bytes
  pub max_connections : ℤ

pub record TenantRow : Type 0 where
  pub id : ℤ
  pub site_key : Bytes
  pub database_name : Bytes
  pub display_name : Bytes
  pub status : Bytes
  pub max_connections : ℤ

unfoldable pub context_from_row : TenantRow → TenantContext
context_from_row row = record {
  tenant_id = row.id;
  site_key = row.site_key;
  database_name = row.database_name;
  display_name = row.display_name;
  status = row.status;
  max_connections = row.max_connections;
}

-- `TenantResolver`
pub record TenantResolver (S : Type 0) : Type 0 where
  pub resolve : Bytes → S → Option TenantContext × S
  pub invalidate : Bytes → S → S
  pub invalidate_all : S → S

abbrev pub Cache : Type 0
Cache = List (Bytes × TenantContext)

-- `cache_.find(key)`
unfoldable pub find_cached : Bytes → Cache → Option TenantContext
find_cached key [] = none
find_cached key ((k, context) ∷ cache) =
    let later = find_cached key cache in if bytes_eq k key then some context else later

-- `cache_.erase(key)`
unfoldable pub erase : Bytes → Cache → Cache
erase key cache = keep (λ entry. not (bytes_eq entry.0 key)) cache

-- `cache_[key] = context`
unfoldable pub insert : Bytes → TenantContext → Cache → Cache
insert key context cache = (key, context) ∷ erase key cache

-- `Tenants::LookupBySiteKey`
unfoldable pub lookup_by_site_key : Bytes → List TenantRow → Option TenantRow
lookup_by_site_key key [] = none
lookup_by_site_key key (row ∷ rows) =
    let later = lookup_by_site_key key rows in if bytes_eq row.site_key key then some row else later

pub record ControlState : Type 0 where
  pub cache : Cache
  pub tenants : List TenantRow

abbrev pub with_cache : Cache → ControlState → ControlState
with_cache cache s = record { cache = cache; tenants = s.tenants }

-- The query of `Resolve`, on a miss.
unfoldable pub query : Bytes → List TenantRow → Option TenantContext
query key tenants = Option.map context_from_row (lookup_by_site_key key tenants)

-- The end of `Resolve`: what was resolved is remembered.
unfoldable pub remember : Bytes → Option TenantContext → Cache → Cache
remember key none cache = cache
remember key (some context) cache = insert key context cache

unfoldable pub resolve_control : Bytes → ControlState → Option TenantContext × ControlState
resolve_control key s =
    let resolved = query key s.tenants in
    elim (find_cached key s.cache) [
      | some context ↦ (some context, s)
      | none ↦ (resolved, with_cache (remember key resolved s.cache) s)
    ]

unfoldable pub control_db_tenant_resolver : TenantResolver ControlState
control_db_tenant_resolver = record {
  resolve = resolve_control;
  invalidate = λ key s. with_cache (erase key s.cache) s;
  invalidate_all = λ s. with_cache [] s;
}

unfoldable pub fixed_tenant_resolver : TenantContext → TenantResolver Unit
fixed_tenant_resolver context = record {
  resolve =
      λ key s. (if is_empty key || bytes_eq key context.site_key then some context else none, s);
  invalidate = λ key s. s;
  invalidate_all = λ s. s;
}
