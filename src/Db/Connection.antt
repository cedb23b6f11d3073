-- ===== src/Db/Connection.antt =====
-- db/connection.py: the pool of connections, which are numbers here. What sqlite3.connect gives comes from
-- outside; none is its error. A call that waits for the queue is two steps, since other tasks run in between.
use ghost_grid.Common.{
  ℕ, zero, suc, ◌+◌, ◌-◌, Bool, true, false, Option, none, some, List, [], ◌∷◌, ◌++◌, length, leb,
  if◌then◌else◌,
}

pub record ConnectionMetrics : Type 0 where
  pub connections_created : ℕ
  pub connections_closed : ℕ
  pub transactions_active : ℕ
  pub pool_exhaustion_events : ℕ
  pub connection_errors : ℕ

-- `reset`
unfoldable pub reset_metrics : ConnectionMetrics
reset_metrics = record {
  connections_created = 0;
  connections_closed = 0;
  transactions_active = 0;
  pool_exhaustion_events = 0;
  connection_errors = 0;
}

pub record ConnectionPool : Type 0 where
  pub pool_size : ℕ
  pub queue : List ℕ
  pub metrics : ConnectionMetrics
  pub initialized : Bool

unfoldable pub new_pool : ℕ → ConnectionPool
new_pool pool_size = record {
  pool_size = pool_size;
  queue = [];
  metrics = reset_metrics;
  initialized = false;
}

-- How a call ends: it returns, raises, or waits for room in the queue.
pub data End : Type 0 where
  returns raises blocks : End

-- `asyncio.Queue.full`
abbrev pub is_full : ConnectionPool → Bool
is_full p = leb p.pool_size (length p.queue)

-- `connection_errors` counted.
abbrev pub count_error : ConnectionPool → ConnectionPool
count_error p = record p {
  metrics = record (p.metrics) { connection_errors = p.metrics.connection_errors + 1 };
}

-- A connection in the queue, counted.
abbrev pub put_new : ConnectionPool → ℕ → ConnectionPool
put_new p c = record p {
  queue = p.queue ++ c ∷ [];
  metrics = record (p.metrics) { connections_created = p.metrics.connections_created + 1 };
}

-- A round of the loop of `init`, by what sqlite3.connect gives; what follows a put is given.
abbrev pub init_round :
    ConnectionPool → Option ℕ → (ConnectionPool → ConnectionPool × End) → ConnectionPool × End
init_round p none rest = (count_error p, raises)
init_round p (some c) rest =
    let later = rest (put_new p c) in if is_full p then (p, blocks) else later

-- The loop of `init`; the n-th call of sqlite3.connect gives `connect n`.
unfoldable pub init_loop : (ℕ → Option ℕ) → ℕ → ℕ → ConnectionPool → ConnectionPool × End
init_loop connect zero n p = (record p { initialized = true }, returns)
init_loop connect (suc left) n p =
    init_round p (connect n) (λ p'. init_loop connect left (suc n) p')

unfoldable pub init : (ℕ → Option ℕ) → ConnectionPool → ConnectionPool × End
init connect p = init_loop connect p.pool_size 0 p

-- The oldest connection of the queue, counted as active.
abbrev pub get_oldest : ConnectionPool → List ℕ → Option (ConnectionPool × ℕ)
get_oldest p [] = none
get_oldest p (c ∷ queue) = some (
  record p {
    queue = queue;
    metrics = record (p.metrics) { transactions_active = p.metrics.transactions_active + 1 };
  },
  c,
)

-- `acquire` of an initialised pool: none is a call that waits.
unfoldable pub acquire : ConnectionPool → Option (ConnectionPool × ℕ)
acquire p = get_oldest p p.queue

-- What is counted before the wait.
unfoldable pub begin_wait : ConnectionPool → ConnectionPool
begin_wait p = record p {
  metrics = record (p.metrics) { pool_exhaustion_events = p.metrics.pool_exhaustion_events + 1 };
}

-- The end of a wait after thirty seconds.
unfoldable pub time_out : ConnectionPool → ConnectionPool
time_out p = count_error p

unfoldable pub release : ℕ → ConnectionPool → ConnectionPool × End
release c p =
    let counted = record (p.metrics) { transactions_active = p.metrics.transactions_active - 1 } in
    (
      record p { metrics = counted; queue = if is_full p then p.queue else p.queue ++ c ∷ [] },
      if is_full p then blocks else returns,
    )

-- `close_all`
unfoldable pub close_from : List ℕ → ConnectionPool → ConnectionPool
close_from [] p = p
close_from (c ∷ queue) p = close_from queue (record p {
  queue = queue;
  metrics = record (p.metrics) { connections_closed = p.metrics.connections_closed + 1 };
})

unfoldable pub close_all : ConnectionPool → ConnectionPool
close_all p = close_from p.queue p
