-- ===== src/Tenancy/Tests.antt =====
-- Tenants at small tables, and the theorems at them.
use server_components.Common.Int.{pos}
use server_components.Common.{
  ℕ, suc, ◌≡◌, refl, sym, ap, ◌∙◌, ◌≢◌, false, some, [], ◌∷◌, arith, Bytes, bytes, bytes_eq,
  bytes_eq_iff,
}
use server_components.Tenancy.Resolver.{
  TenantContext, TenantRow, context_from_row, find_cached, lookup_by_site_key, ControlState, query,
  resolve_control, control_db_tenant_resolver,
}
use server_components.Tenancy.Resolver.Caching.{
  CacheAgrees, resolve_control-agrees, invalidate-agrees, ControlRun, started, stepped, request,
  change, ControlRun-query,
}

abbrev yoga : TenantRow
yoga = record {
  id = pos 1;
  site_key = bytes "yoga";
  database_name = bytes "db1";
  display_name = bytes "Yoga";
  status = bytes "active";
  max_connections = pos 4;
}

abbrev state : ControlState
state = record { cache = []; tenants = yoga ∷ [] }

nothing_cached : CacheAgrees state
unfolding find_cached
nothing_cached key context e = cc

yoga_found : query (bytes "yoga") (yoga ∷ []) ≡ some (context_from_row yoga)
unfolding query lookup_by_site_key bytes_eq
yoga_found = refl

elsewhere : (other : Bytes) → other ≢ bytes "yoga" → query other [] ≡ query other (yoga ∷ [])
elsewhere other n =
    let differs : bytes_eq (bytes "yoga") other ≡ false =
      ground (arith, bytes_eq_iff (bytes "yoga") other) in
    unfold query lookup_by_site_key in rw differs

kept_elsewhere :
    (other : Bytes)
    → other ≢ bytes "yoga"
    → query other [] ≡ query other (resolve_control (bytes "yoga") state).1.tenants
kept_elsewhere other n =
    elsewhere other n
    ∙ sym (ap (query other) (resolve_control-agrees (bytes "yoga") state nothing_cached).1)

-- The tenant is asked for, and then leaves the table.
run : ControlRun (
    control_db_tenant_resolver.invalidate
      (bytes "yoga")
      (record { cache = (resolve_control (bytes "yoga") state).1.cache; tenants = [] }))
run =
    stepped (stepped (started (yoga ∷ [])) (request (bytes "yoga")))
      (change (bytes "yoga") [] kept_elsewhere)

ControlRun-query_example :
    let left =
      control_db_tenant_resolver.invalidate
        (bytes "yoga")
        (record { cache = (resolve_control (bytes "yoga") state).1.cache; tenants = [] }) in
    ((resolve_control (bytes "yoga") left).0 ≡ query (bytes "yoga") left.tenants)
    × ((resolve_control (bytes "yoga") left).1.tenants ≡ left.tenants)
ControlRun-query_example = ControlRun-query run (bytes "yoga")

-- The tenant leaves the table.
invalidate-agrees_example : CacheAgrees (
    control_db_tenant_resolver.invalidate
      (bytes "yoga")
      (record { cache = (resolve_control (bytes "yoga") state).1.cache; tenants = [] }))
invalidate-agrees_example =
    invalidate-agrees (bytes "yoga") (resolve_control (bytes "yoga") state).1 []
      (resolve_control-agrees (bytes "yoga") state nothing_cached).2 kept_elsewhere

-- A factory that numbers what it builds.
abbrev numbering : TenantContext → ℕ → ℕ × ℕ
numbering context n = (n, suc n)
