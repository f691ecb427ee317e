-- ===== src/Data/ConnectionPool/Sharing.antt =====
-- No connection is used by two transactions at once, and the pool never outgrows its bound.
use server_components.Common.Int.{ℤ}
use server_components.Common.{
  ℕ, suc, ◌+◌, ◌≤◌, ◌<◌, ◌≡◌, refl, subst, ◌≢◌, ◌⊎◌, none, some, List, [], ◌∷◌, ◌++◌, arith,
  if◌then◌else◌, ltb, ◌==◌, length, length-append, inl, inr, Bool-cases, ltb→lt,
}
use server_components.Data.ConnectionPool.{
  Pool, make_pool, try_acquire, start_waiting, release_provider, System, Step, acquires, waits,
  wakes, releases, Reachable, here, next, initial,
}

-- How often a provider stands in a list.
pub occurrences : ℕ → List ℕ → ℕ
occurrences p [] = 0
occurrences p (q ∷ qs) = (if q == p then 1 else 0) + occurrences p qs

occurrences-append :
    (p : ℕ) (xs ys : List ℕ) → occurrences p (xs ++ ys) ≡ occurrences p xs + occurrences p ys
unfolding occurrences
occurrences-append p [] ys = omega arith
occurrences-append p (x ∷ xs) ys = omega (arith, occurrences-append p xs ys)

-- Every provider that was created is in exactly one place, free or in use once; the others are nowhere.
pub record IsSound (s : System) : Type 0 where
  pub bounded : s.pool.created_count ≤ s.pool.max_connections
  pub counted : length s.pool.free_providers + length s.in_use ≡ s.pool.created_count
  pub placed :
      (p : ℕ)
      → occurrences p s.pool.free_providers + occurrences p s.in_use
        ≡ (if ltb p s.pool.created_count then 1 else 0)

initial-IsSound : (max : ℤ) → IsSound (initial max)
unfolding make_pool occurrences
initial-IsSound max = record { bounded = omega arith; counted = refl; placed = λ p. ground arith }

-- A successful try takes a free provider, or creates one.
try_acquire-cases :
    (pool : Pool) (provider : ℕ) (after : Pool)
    → try_acquire pool ≡ some (provider, after)
    → ((free : List ℕ) × (pool.free_providers ≡ provider ∷ free)
        × (after ≡ record pool { free_providers = free }))
      ⊎ ((pool.free_providers ≡ [])
          × (pool.created_count < pool.max_connections)
          × (provider ≡ pool.created_count)
          × (after ≡ record pool { created_count = suc pool.created_count }))
unfolding try_acquire
try_acquire-cases pool provider after e = split pool.free_providers refl
  where
    split :
        (free : List ℕ)
        → pool.free_providers ≡ free
        → ((free : List ℕ) × (pool.free_providers ≡ provider ∷ free)
            × (after ≡ record pool { free_providers = free }))
          ⊎ ((pool.free_providers ≡ [])
              × (pool.created_count < pool.max_connections)
              × (provider ≡ pool.created_count)
              × (after ≡ record pool { created_count = suc pool.created_count }))
    split [] f = elim (Bool-cases (ltb pool.created_count pool.max_connections)) [
      | inl room ↦ inr (f, ltb→lt _ _ room, cc, cc)
      | inr full ↦ cc
    ]
    split (p ∷ free) f = inl (free, cc, cc)

moved :
    (p provider : ℕ) (free in_use : List ℕ) (created : ℕ)
    → occurrences p (provider ∷ free) + occurrences p in_use ≡ (if ltb p created then 1 else 0)
    → occurrences p free + occurrences p (provider ∷ in_use) ≡ (if ltb p created then 1 else 0)
unfolding occurrences
moved p provider free in_use created e = omega (arith, e)

created :
    (p : ℕ) (free in_use : List ℕ) (count : ℕ)
    → occurrences p free + occurrences p in_use ≡ (if ltb p count then 1 else 0)
    → occurrences p free + occurrences p (count ∷ in_use) ≡ (if ltb p (suc count) then 1 else 0)
unfolding occurrences
created p free in_use count e = ground (arith, e)

released :
    (p provider : ℕ) (free before behind : List ℕ) (created : ℕ)
    → occurrences p free + occurrences p (before ++ provider ∷ behind)
      ≡ (if ltb p created then 1 else 0)
    → occurrences p (provider ∷ free) + occurrences p (before ++ behind)
      ≡ (if ltb p created then 1 else 0)
unfolding occurrences
released p provider free before behind created e =
    omega (
      arith,
      e,
      occurrences-append p before (provider ∷ behind),
      occurrences-append p before behind,
    )

-- What a successful try does to the pool, whoever tries.
try_acquire-IsSound :
    (s : System) (others provider : ℕ) (pool : Pool)
    → IsSound s
    → try_acquire s.pool ≡ some (provider, pool)
    → IsSound (record { pool = pool; in_use = provider ∷ s.in_use; waiting = others })
try_acquire-IsSound s others provider pool sound e =
    elim (try_acquire-cases s.pool provider pool e) [
      | inl (free, taken, after) ↦
          let counted : length (provider ∷ free) + length s.in_use ≡ s.pool.created_count =
            subst (λ l. length l + length s.in_use ≡ s.pool.created_count) taken sound.counted in
          rw after (record {
            bounded = sound.bounded;
            counted = omega (arith, counted);
            placed = λ p. moved p provider free s.in_use s.pool.created_count (
                subst
                  (λ l.
                    occurrences p l + occurrences p s.in_use
                    ≡ (if ltb p s.pool.created_count then 1 else 0))
                  taken (sound.placed p));
          })
      | inr (none_free, room, new, after) ↦
          rw (after, new)
            (record {
              bounded = omega arith;
              counted = omega (arith, sound.counted);
              placed = λ p.
                  created p s.pool.free_providers s.in_use s.pool.created_count (sound.placed p);
            })
    ]

Step-IsSound : {s t : System} → Step s t → IsSound s → IsSound t
unfolding start_waiting release_provider
Step-IsSound {s = s} (acquires provider pool e) sound =
    try_acquire-IsSound s s.waiting provider pool sound e
Step-IsSound (waits e) sound = record {
  bounded = sound.bounded;
  counted = sound.counted;
  placed = sound.placed;
}
Step-IsSound {s = s} (wakes others provider pool w e) sound =
    try_acquire-IsSound s others provider pool sound e
Step-IsSound {s = s} (releases before provider behind split) sound =
    let counted : length s.pool.free_providers + length (before ++ provider ∷ behind)
        ≡ s.pool.created_count =
      subst (λ l. length s.pool.free_providers + length l ≡ s.pool.created_count) split
        sound.counted in
    record {
      bounded = sound.bounded;
      counted =
          omega
            (arith, counted, length-append before (provider ∷ behind), length-append before behind);
      placed = λ p. released p provider s.pool.free_providers before behind s.pool.created_count (
          subst
            (λ l.
              occurrences p s.pool.free_providers + occurrences p l
              ≡ (if ltb p s.pool.created_count then 1 else 0))
            split (sound.placed p));
    }

Reachable-IsSound : (max : ℤ) {s : System} → Reachable (initial max) s → IsSound s
Reachable-IsSound max here = initial-IsSound max
Reachable-IsSound max (next run step) = Step-IsSound step (Reachable-IsSound max run)

try_acquire-none :
    (pool : Pool)
    → try_acquire pool ≡ none
    → (pool.free_providers ≡ []) × (pool.max_connections ≤ pool.created_count)
unfolding try_acquire
try_acquire-none pool e = split pool.free_providers refl
  where
    split :
        (free : List ℕ)
        → pool.free_providers ≡ free
        → (pool.free_providers ≡ []) × (pool.max_connections ≤ pool.created_count)
    split [] f = elim (Bool-cases (ltb pool.created_count pool.max_connections)) [
      | inl room ↦ cc
      | inr full ↦ (f, ground arith)
    ]
    split (p ∷ free) f = cc

-- In whatever order threads acquire, wait and release, and whether their transactions return or throw: no provider is
-- held by two transactions, none is both free and held, and there are never more than the bound.
pub Reachable-exclusive :
    (max : ℤ) (s : System)
    → Reachable (initial max) s
    → ((p : ℕ) → occurrences p s.pool.free_providers + occurrences p s.in_use ≤ 1)
      × (length s.pool.free_providers + length s.in_use ≤ s.pool.max_connections)
Reachable-exclusive max s run =
    let sound = Reachable-IsSound max run in
    ((λ p. ground (arith, sound.placed p)), omega (arith, sound.counted, sound.bounded))

-- A thread has to wait only when as many transactions run as the bound allows, and after any of them has released its
-- provider the next try succeeds.
pub Reachable-progress :
    (max : ℤ) (s : System) (provider : ℕ)
    → Reachable (initial max) s
    → (try_acquire s.pool ≡ none → length s.in_use ≡ s.pool.max_connections)
      × (try_acquire (release_provider provider s.pool) ≢ none)
Reachable-progress max s provider run = (
  λ e.
      let sound = Reachable-IsSound max run in
      let (empty, full) = try_acquire-none s.pool e in
      let counted : length {A = ℕ} [] + length s.in_use ≡ s.pool.created_count =
        subst (λ l. length l + length s.in_use ≡ s.pool.created_count) empty sound.counted in
      omega (arith, counted, full, sound.bounded),
  unfold release_provider try_acquire in (λ e. cc),
)
