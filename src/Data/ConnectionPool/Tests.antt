-- ===== src/Data/ConnectionPool/Tests.antt =====
-- A pool of one connection, and the theorems at it.
use server_components.Common.Int.{pos}
use server_components.Common.{ℕ, ◌≡◌, refl, ◌≢◌, ◌≤◌, ◌+◌, none, [], ◌∷◌, length}
use server_components.Data.ConnectionPool.{
  Pool, make_pool, try_acquire, start_waiting, release_provider, System, acquires, waits, Reachable,
  here, next, initial,
}
use server_components.Data.ConnectionPool.Sharing.{
  occurrences, Reachable-exclusive, Reachable-progress,
}

abbrev used : Pool
used = record {
  max_connections = 1;
  created_count = 1;
  free_providers = [];
  acquire_wait_count = 0;
}

-- One transaction runs, and a second thread waits.
abbrev busy : System
busy = record { pool = record used { acquire_wait_count = 1 }; in_use = 0 ∷ []; waiting = 1 }

run : Reachable (initial (pos 1)) busy
unfolding make_pool try_acquire start_waiting
run = next (next here (acquires 0 used refl)) (waits refl)

Reachable-exclusive_example :
    ((p : ℕ) → occurrences p [] + occurrences p (0 ∷ []) ≤ 1) × (0 + 1 ≤ 1)
Reachable-exclusive_example = Reachable-exclusive (pos 1) busy run

Reachable-progress_example :
    (try_acquire busy.pool ≡ none → length busy.in_use ≡ 1)
    × (try_acquire (release_provider 0 busy.pool) ≢ none)
Reachable-progress_example = Reachable-progress (pos 1) busy 0 run
