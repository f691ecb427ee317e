-- ===== src/Tenancy/Registry.antt =====
-- `TenantResourceRegistry` of components/platform/business_logic/tenancy/tenant_resources.cpp: each tenant's resources are
-- built once. The factory is a function of the application, with a state of its own.
use server_components.Common.Int.{ℤ, leb_ℤ}
use server_components.Common.{
  ◌≡◌, refl, sym, ap, ◌∙◌, Bool, true, false, ◌&&◌, not, Option, none, some, List, [], ◌∷◌, map,
  arith, if◌then◌else◌, keep, inl, inr, Bool-cases, Option-cases,
}
use server_components.Tenancy.Resolver.{TenantContext}

unfoldable pub same_id : ℤ → ℤ → Bool
same_id a b = leb_ℤ a b && leb_ℤ b a

same_id_refl : (a : ℤ) → same_id a a ≡ true
unfolding same_id
same_id_refl a = ground arith

apart_from_same :
    (k gone id : ℤ) → same_id k gone ≡ true → same_id gone id ≡ false → same_id k id ≡ false
unfolding same_id
apart_from_same k gone id e h = ground arith

abbrev pub Registry : Type 0 → Type 0
Registry R = List (ℤ × R)

module _ {R : Type 0} where
  unfoldable pub find_resources : ℤ → Registry R → Option R
  find_resources id [] = none
  find_resources id ((other, resources) ∷ registry) =
      let later = find_resources id registry in if same_id other id then some resources else later

  unfoldable pub evict : ℤ → Registry R → Registry R
  evict id registry = keep (λ entry. not (same_id entry.0 id)) registry

  unfoldable pub get_all : Registry R → List R
  get_all registry = map (λ entry. entry.1) registry

  evict-erased :
      (gone k : ℤ) (r : R) (registry : Registry R)
      → same_id k gone ≡ true
      → evict gone ((k, r) ∷ registry) ≡ evict gone registry
  unfolding evict
  evict-erased gone k r registry e = cc

  evict-kept :
      (gone k : ℤ) (r : R) (registry : Registry R)
      → same_id k gone ≡ false
      → evict gone ((k, r) ∷ registry) ≡ (k, r) ∷ evict gone registry
  unfolding evict
  evict-kept gone k r registry e = cc

  find_resources-own :
      (id : ℤ) (resources : R) (registry : Registry R)
      → find_resources id ((id, resources) ∷ registry) ≡ some resources
  unfolding find_resources
  find_resources-own id resources registry = rw (same_id_refl id)

  find_resources-cons :
      (id k : ℤ) (r : R) (left right : Registry R)
      → find_resources id left ≡ find_resources id right
      → find_resources id ((k, r) ∷ left) ≡ find_resources id ((k, r) ∷ right)
  unfolding find_resources
  find_resources-cons id k r left right e = rw e

  find_resources-next :
      (id other : ℤ) (resources : R) (registry : Registry R)
      → same_id other id ≡ false
      → find_resources id ((other, resources) ∷ registry) ≡ find_resources id registry
  unfolding find_resources
  find_resources-next id other resources registry h = rw h

  find_resources-evict_other :
      (id gone : ℤ) (registry : Registry R)
      → same_id gone id ≡ false
      → find_resources id (evict gone registry) ≡ find_resources id registry
  find_resources-evict_other id gone [] h = unfold evict in refl
  find_resources-evict_other id gone ((k, r) ∷ registry) h =
      let rest = find_resources-evict_other id gone registry h in
      elim (Bool-cases (same_id k gone)) [
        | inl erased ↦
            ap (find_resources id) (evict-erased gone k r registry erased)
            ∙ rest
            ∙ sym (find_resources-next id k r registry (apart_from_same k gone id erased h))
        | inr stays ↦
            ap (find_resources id) (evict-kept gone k r registry stays)
            ∙ find_resources-cons id k r (evict gone registry) registry rest
      ]

module _ {R W : Type 0} where
  -- The resources, the registry and the state of the factory afterwards.
  unfoldable pub get_or_create :
      (TenantContext → W → R × W) → TenantContext → Registry R → W → R × Registry R × W
  get_or_create factory context registry w =
      let (resources, w') = factory context w in
      elim (find_resources context.tenant_id registry) [
        | some cached ↦ (cached, registry, w)
        | none ↦ (resources, (context.tenant_id, resources) ∷ evict context.tenant_id registry, w')
      ]

  get_or_create-hit :
      (factory : TenantContext → W → R × W) (context : TenantContext) (registry : Registry R)
      (w : W) (cached : R)
      → find_resources context.tenant_id registry ≡ some cached
      → get_or_create factory context registry w ≡ (cached, registry, w)
  unfolding get_or_create
  get_or_create-hit factory context registry w cached e = cc

  get_or_create-miss :
      (factory : TenantContext → W → R × W) (context : TenantContext) (registry : Registry R)
      (w : W)
      → find_resources context.tenant_id registry ≡ none
      → get_or_create factory context registry w ≡ (
        (factory context w).0,
        (context.tenant_id, (factory context w).0) ∷ evict context.tenant_id registry,
        (factory context w).1,
      )
  unfolding get_or_create
  get_or_create-miss factory context registry w e = cc

  -- Resources are built once: after a call for a tenant, a second one for it, with whatever context and after any
  -- calls for other tenants' eviction, returns the same resources without calling the factory; and the
  -- resources of every other tenant are untouched by the call.
  pub get_or_create-once :
      (factory : TenantContext → W → R × W) (context again : TenantContext) (evicted : ℤ)
      (registry : Registry R) (w later : W)
      → again.tenant_id ≡ context.tenant_id
      → same_id evicted context.tenant_id ≡ false
      → let (resources, after, w') = get_or_create factory context registry w in
        (get_or_create factory again (evict evicted after) later
          ≡ (resources, evict evicted after, later))
        × ((other : ℤ)
            → same_id context.tenant_id other ≡ false
            → find_resources other after ≡ find_resources other registry)
  get_or_create-once factory context again evicted registry w later same apart =
      elim (Option-cases (find_resources context.tenant_id registry)) [
        | inr (cached, hit) ↦ rw (get_or_create-hit factory context registry w cached hit) (
          get_or_create-hit factory again (evict evicted registry) later cached
              (rw same (find_resources-evict_other context.tenant_id evicted registry apart ∙ hit)),
          λ other n. refl,
        )
        | inl miss ↦
            let resources = (factory context w).0 in
            let after = (context.tenant_id, resources) ∷ evict context.tenant_id registry in
            rw (get_or_create-miss factory context registry w miss) (
              get_or_create-hit factory again (evict evicted after) later resources (
                  rw same (
                    find_resources-evict_other context.tenant_id evicted after apart
                    ∙ find_resources-own context.tenant_id resources
                        (evict context.tenant_id registry))),
              λ other n.
                  find_resources-next other context.tenant_id resources
                    (evict context.tenant_id registry) n
                  ∙ find_resources-evict_other other context.tenant_id registry n,
            )
      ]
