-- ===== src/Tests/Databases.antt =====
-- The pool of connections at concrete inputs.
use ghost_grid.Common.{
  ℕ, ◌≤◌, ◌<◌, ◌≡◌, ◌++◌, refl, true, Option, some, List, [], ◌∷◌, length, arith,
}
use ghost_grid.Db.Connection.{
  ConnectionPool, ConnectionMetrics, returns, new_pool, reset_metrics, init, init_loop, acquire,
  release,
}
use ghost_grid.Db.Handed.{count, Steps, stays, goes, takes, acquire-exclusive}

abbrev numbered : ℕ → Option ℕ
numbered n = some n

abbrev active_metrics : ℕ → ConnectionMetrics
active_metrics n = record {
  connections_created = 2;
  connections_closed = 0;
  transactions_active = n;
  pool_exhaustion_events = 0;
  connection_errors = 0;
}

abbrev pool : List ℕ → ℕ → ConnectionPool
pool queue n = record {
  pool_size = 2;
  queue = queue;
  metrics = active_metrics n;
  initialized = true;
}

ready-pool : init numbered (new_pool 2) ≡ (pool (0 ∷ 1 ∷ []) 0, returns)
unfolding init init_loop new_pool reset_metrics
ready-pool = refl

first-taken : acquire (pool (0 ∷ 1 ∷ []) 0) ≡ some (pool (1 ∷ []) 1, 0)
unfolding acquire
first-taken = refl

second-taken : acquire (pool (1 ∷ []) 1) ≡ some (pool [] 2, 1)
unfolding acquire
second-taken = refl

pool-distinct : (d : ℕ) → count d (0 ∷ 1 ∷ []) ≤ 1
pool-distinct d = ground arith

one-held : Steps (pool (0 ∷ 1 ∷ []) 0, []) (pool (1 ∷ []) 1, 0 ∷ [])
one-held = goes _ _ _ (stays _) (takes _ _ _ 0 first-taken)

abbrev holding : List ℕ
holding = 0 ∷ []

acquire-exclusive_example :
    (count 1 holding ≡ 0)
    × (length holding < 2)
    × (◌≡◌ {A = ℕ} 1 (length holding))
    × ((before after : List ℕ) (d : ℕ)
        → holding ≡ before ++ d ∷ after
        → (release d (pool (1 ∷ []) 1)).1 ≡ returns)
acquire-exclusive_example =
    acquire-exclusive numbered 2 (pool (0 ∷ 1 ∷ []) 0) (pool (1 ∷ []) 1) (pool [] 2) holding 1
      ready-pool pool-distinct one-held second-taken
