-- ===== src/Data/ConnectionPool.antt =====
-- components/data/sql_util/database_access/pooled_transaction_provider.cpp: a pool of connections.
--
-- A provider is its number in the order of creation. What a thread does while it holds the mutex is one step; the
-- order in which threads take it is any. The aggregate count of all pools and the measured times are not modelled.
pub mod Sharing
mod Tests
use server_components.Common.Int.{ℤ, pos, leb_ℤ, pos_part}
use server_components.Common.{
  ℕ, zero, suc, ◌+◌, Bool, true, false, Option, none, some, List, [], ◌∷◌, ◌++◌, ◌≡◌, if◌then◌else◌,
  ltb,
}

-- The last element of the vector of free providers comes first.
pub record Pool : Type 0 where
  pub max_connections : ℕ
  pub created_count : ℕ
  pub free_providers : List ℕ
  pub acquire_wait_count : ℕ

-- The constructor.
unfoldable pub make_pool : ℤ → Pool
make_pool max_connections = record {
  max_connections = if leb_ℤ max_connections (pos 0) then 1 else pos_part max_connections;
  created_count = 0;
  free_providers = [];
  acquire_wait_count = 0;
}

-- A round of the loop of `AcquireProvider`: a free provider, or a new one, or none while the pool is exhausted.
unfoldable pub try_acquire : Pool → Option (ℕ × Pool)
try_acquire pool = elim pool.free_providers [
  | provider ∷ free ↦ some (provider, record pool { free_providers = free })
  | [] ↦
      if ltb pool.created_count pool.max_connections
      then some (pool.created_count, record pool { created_count = suc pool.created_count })
      else none
]

unfoldable pub start_waiting : Pool → Pool
start_waiting pool = record pool { acquire_wait_count = suc pool.acquire_wait_count }

unfoldable pub release_provider : ℕ → Pool → Pool
release_provider provider pool = record pool { free_providers = provider ∷ pool.free_providers }

-- The pool, the providers that running transactions hold, and how many threads wait for one.
pub record System : Type 0 where
  pub pool : Pool
  pub in_use : List ℕ
  pub waiting : ℕ

-- What one thread does: it gets a provider at its first try, or begins to wait; a waiting thread is woken when
-- there is a free provider, and tries again; a transaction ends, by return or by exception, and releases its provider.
pub data Step : System → System → Type 0 where
  acquires :
      {s : System} (provider : ℕ) (pool : Pool)
      → try_acquire s.pool ≡ some (provider, pool)
      → Step s (record { pool = pool; in_use = provider ∷ s.in_use; waiting = s.waiting })
  waits :
      {s : System}
      → try_acquire s.pool ≡ none
      → Step s (record { pool = start_waiting s.pool; in_use = s.in_use; waiting = suc s.waiting })
  wakes :
      {s : System} (others provider : ℕ) (pool : Pool)
      → s.waiting ≡ suc others
      → try_acquire s.pool ≡ some (provider, pool)
      → Step s (record { pool = pool; in_use = provider ∷ s.in_use; waiting = others })
  releases :
      {s : System} (before : List ℕ) (provider : ℕ) (behind : List ℕ)
      → s.in_use ≡ before ++ provider ∷ behind
      → Step s (record {
        pool = release_provider provider s.pool;
        in_use = before ++ behind;
        waiting = s.waiting;
      })

-- All states that threads can bring the pool to.
pub data Reachable (start : System) : System → Type 0 where
  here : Reachable start start
  next : {s t : System} → Reachable start s → Step s t → Reachable start t

abbrev pub initial : ℤ → System
initial max_connections = record { pool = make_pool max_connections; in_use = []; waiting = 0 }
