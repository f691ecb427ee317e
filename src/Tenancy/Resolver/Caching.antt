-- ===== src/Tenancy/Resolver/Caching.antt =====
-- The cache of `ControlDbTenantResolver` against the table.
use server_components.Common.{
  ◌≡◌, refl, sym, ap, ◌∙◌, ◌≢◌, ◌⊎◌, true, false, Option, none, some, List, [], ◌∷◌, arith, inl,
  inr, Bool-cases, Option-cases, Bytes, bytes_eq, bytes_eq_iff, bytes_eq_refl,
}
use server_components.Tenancy.Resolver.{
  TenantContext, TenantRow, Cache, find_cached, erase, insert, ControlState, with_cache, query,
  remember, resolve_control, control_db_tenant_resolver,
}

-- What is cached for a key is what the table says.
abbrev pub CacheAgrees : ControlState → Type 0
CacheAgrees s =
    (key : Bytes) (context : TenantContext)
    → find_cached key s.cache ≡ some context
    → query key s.tenants ≡ some context

find_cached-erase_same : (key : Bytes) (cache : Cache) → find_cached key (erase key cache) ≡ none
unfolding find_cached erase
find_cached-erase_same key [] = refl
find_cached-erase_same key ((k, context) ∷ cache) = ground (arith, find_cached-erase_same key cache)

find_cached-erase :
    (key gone : Bytes) (cache : Cache) (context : TenantContext)
    → find_cached key (erase gone cache) ≡ some context
    → (key ≢ gone) × (find_cached key cache ≡ some context)
unfolding find_cached erase
find_cached-erase key gone [] context e = cc
find_cached-erase key gone ((k, c) ∷ cache) context e = elim (Bool-cases (bytes_eq k gone)) [
  | inl erased ↦
      let tail : find_cached key (erase gone cache) ≡ some context = cc in
      let (n, found) = find_cached-erase key gone cache context tail in
      let passed : bytes_eq k key ≡ false =
        ground (arith, (bytes_eq_iff k gone).0 erased, bytes_eq_iff k key) in
      (n, rw passed found)
  | inr stays ↦ elim (Bool-cases (bytes_eq k key)) [
    | inl here ↦
        let first : c ≡ context = cc in
        ((λ same. kept_apart here stays same), rw here (ap some first))
    | inr other ↦
        let tail : find_cached key (erase gone cache) ≡ some context = cc in
        let (n, found) = find_cached-erase key gone cache context tail in (n, rw other found)
  ]
]
  where
    kept_apart : bytes_eq k key ≡ true → bytes_eq k gone ≡ false → key ≢ gone
    kept_apart here stays same = cc

find_cached-insert :
    (key other : Bytes) (fresh context : TenantContext) (cache : Cache)
    → find_cached key (insert other fresh cache) ≡ some context
    → ((other ≡ key) × (fresh ≡ context)) ⊎ (find_cached key cache ≡ some context)
unfolding find_cached insert
find_cached-insert key other fresh context cache e = elim (Bool-cases (bytes_eq other key)) [
  | inl same ↦ inl ((bytes_eq_iff other key).0 same, cc)
  | inr differs ↦
      let tail : find_cached key (erase other cache) ≡ some context = cc in
      inr (find_cached-erase key other cache context tail).1
]

resolve_control-hit :
    (key : Bytes) (s : ControlState) (context : TenantContext)
    → find_cached key s.cache ≡ some context
    → resolve_control key s ≡ (some context, s)
unfolding resolve_control
resolve_control-hit key s context e = cc

resolve_control-miss :
    (key : Bytes) (s : ControlState)
    → find_cached key s.cache ≡ none
    → resolve_control key s
      ≡ (query key s.tenants, with_cache (remember key (query key s.tenants) s.cache) s)
unfolding resolve_control
resolve_control-miss key s e = cc

remember-agrees :
    (key : Bytes) (s : ControlState) (resolved : Option TenantContext)
    → CacheAgrees s
    → resolved ≡ query key s.tenants
    → CacheAgrees (with_cache (remember key resolved s.cache) s)
unfolding remember
remember-agrees key s none agrees e other found_context found = agrees other found_context found
remember-agrees key s (some context) agrees e other found_context found =
    elim (find_cached-insert other key context found_context s.cache found) [
      | inl (same, fresh) ↦ ap (λ k. query k s.tenants) (sym same) ∙ sym e ∙ ap some fresh
      | inr before ↦ agrees other found_context before
    ]

find_cached-insert_same :
    (key : Bytes) (context : TenantContext) (cache : Cache)
    → find_cached key (insert key context cache) ≡ some context
unfolding find_cached insert
find_cached-insert_same key context cache = rw (bytes_eq_refl key)

-- When the cache agrees with the table, the resolver answers what the table says, whether or not the answer was cached,
-- and leaves the table and the agreement of the cache with it as they were.
pub resolve_control-agrees :
    (key : Bytes) (s : ControlState)
    → CacheAgrees s
    → let (resolved, after) = resolve_control key s in
      (resolved ≡ query key s.tenants) × (after.tenants ≡ s.tenants) × CacheAgrees after
resolve_control-agrees key s agrees = elim (Option-cases (find_cached key s.cache)) [
  | inr (context, hit) ↦
      rw (resolve_control-hit key s context hit) (sym (agrees key context hit), refl, agrees)
  | inl miss ↦
      rw (resolve_control-miss key s miss)
        (refl, refl, remember-agrees key s (query key s.tenants) agrees refl)
]

-- When the cache agreed with the table before a change that concerns one key, invalidating that key makes it agree with
-- the new table.
pub invalidate-agrees :
    (key : Bytes) (s : ControlState) (tenants : List TenantRow)
    → CacheAgrees s
    → ((other : Bytes) → other ≢ key → query other tenants ≡ query other s.tenants)
    → CacheAgrees
        (control_db_tenant_resolver.invalidate key (record { cache = s.cache; tenants = tenants }))
unfolding control_db_tenant_resolver
invalidate-agrees key s tenants agrees same other context found =
    let (n, before) = find_cached-erase other key s.cache context found in
    same other n ∙ agrees other context before

-- The steps of a resolver that is used by one request at a time: a request, a change of the table that concerns one key,
-- which is invalidated before the next request, and any change, after which all is invalidated.
pub data ControlStep : ControlState → ControlState → Type 0 where
  request : {s : ControlState} (key : Bytes) → ControlStep s (resolve_control key s).1
  change :
      {s : ControlState} (key : Bytes) (tenants : List TenantRow)
      → ((other : Bytes) → other ≢ key → query other tenants ≡ query other s.tenants)
      → ControlStep s (
          control_db_tenant_resolver.invalidate key (record { cache = s.cache; tenants = tenants }))
  reload :
      {s : ControlState} (tenants : List TenantRow)
      → ControlStep s (
          control_db_tenant_resolver.invalidate_all (record { cache = s.cache; tenants = tenants }))

-- The states that a resolver comes to, from an empty cache.
pub data ControlRun : ControlState → Type 0 where
  started : (tenants : List TenantRow) → ControlRun (record { cache = []; tenants = tenants })
  stepped : {s t : ControlState} → ControlRun s → ControlStep s t → ControlRun t

empty-CacheAgrees :
    (tenants : List TenantRow) → CacheAgrees (record { cache = []; tenants = tenants })
unfolding find_cached
empty-CacheAgrees tenants key context found = cc

ControlStep-CacheAgrees : {s t : ControlState} → ControlStep s t → CacheAgrees s → CacheAgrees t
unfolding control_db_tenant_resolver
ControlStep-CacheAgrees {s} (request key) agrees = (resolve_control-agrees key s agrees).2
ControlStep-CacheAgrees {s} (change key tenants same) agrees =
    invalidate-agrees key s tenants agrees same
ControlStep-CacheAgrees (reload tenants) agrees = empty-CacheAgrees tenants

ControlRun-CacheAgrees : {s : ControlState} → ControlRun s → CacheAgrees s
ControlRun-CacheAgrees (started tenants) = empty-CacheAgrees tenants
ControlRun-CacheAgrees (stepped run step) =
    ControlStep-CacheAgrees step (ControlRun-CacheAgrees run)

-- A resolver that starts with an empty cache, and is used by one request at a time, answers every request with what the
-- table says then, and leaves the table as it is: after any sequence of requests, of changes of the table that concern one
-- key and are followed by its invalidation, and of other changes that are followed by invalidating all.
pub ControlRun-query :
    {s : ControlState}
    → ControlRun s
    → (key : Bytes)
    → ((resolve_control key s).0 ≡ query key s.tenants)
      × ((resolve_control key s).1.tenants ≡ s.tenants)
ControlRun-query {s} run key =
    let (answer, same, still) = resolve_control-agrees key s (ControlRun-CacheAgrees run) in
    (answer, same)

-- A look-up that queried the table before a change and remembers its answer only after the key was invalidated brings the
-- old tenant back: every later request gets it, whatever the table says.
pub late_remember-stale :
    (key : Bytes) (s : ControlState) (old : TenantContext) (tenants : List TenantRow)
    → query key s.tenants ≡ some old
    → let invalidated =
        control_db_tenant_resolver.invalidate key (record { cache = s.cache; tenants = tenants }) in
      let late = with_cache (remember key (query key s.tenants) invalidated.cache) invalidated in
      (resolve_control key late).0 ≡ some old
unfolding remember
late_remember-stale key s old tenants read =
    let invalidated =
      control_db_tenant_resolver.invalidate key (record { cache = s.cache; tenants = tenants }) in
    rw read (
      ap (λ r. r.0)
        (resolve_control-hit key (with_cache (insert key old invalidated.cache) invalidated) old
          (find_cached-insert_same key old invalidated.cache)))
