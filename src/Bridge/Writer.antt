-- ===== src/Bridge/Writer.antt =====
-- bridge/writer.py: the queue of outbound messages, its overflow, and the breaker of the writes. What the
-- pipe answers comes from outside, as does the clock. The clauses for exceptions of `run` are left out, since
-- `writeline` catches its own; so is the average depth of the queue, which nothing sets.
use ghost_grid.Common.{
  ℕ, ◌+◌, Bool, true, false, ◌&&◌, Option, List, [], ◌∷◌, ◌++◌, length, ltb, leb, if◌then◌else◌,
}
use ghost_grid.Bridge.Text.{Text}
use ghost_grid.Bridge.Client.{Created, Link, writeline, connect, close, readline}

pub record WriterMetrics : Type 0 where
  pub total_enqueued : ℕ
  pub total_written : ℕ
  pub write_failures : ℕ
  pub queue_overflows : ℕ
  pub max_queue_depth : ℕ
  pub last_write_ts : ℕ

-- `reset`, which keeps the time of the last write.
unfoldable pub reset_metrics : WriterMetrics → WriterMetrics
reset_metrics m = record {
  total_enqueued = 0;
  total_written = 0;
  write_failures = 0;
  queue_overflows = 0;
  max_queue_depth = 0;
  last_write_ts = m.last_write_ts;
}

abbrev pub new_writer_metrics : WriterMetrics
new_writer_metrics = record {
  total_enqueued = 0;
  total_written = 0;
  write_failures = 0;
  queue_overflows = 0;
  max_queue_depth = 0;
  last_write_ts = 0;
}

abbrev pub circuit_breaker_threshold : ℕ
circuit_breaker_threshold = 5

pub record PipeWriter : Type 0 where
  pub queue : List Text
  pub queue_maxsize : ℕ
  pub metrics : WriterMetrics
  pub circuit_breaker_failures : ℕ
  pub circuit_breaker_open : Bool

unfoldable pub new_writer : ℕ → PipeWriter
new_writer queue_maxsize = record {
  queue = [];
  queue_maxsize = queue_maxsize;
  metrics = new_writer_metrics;
  circuit_breaker_failures = 0;
  circuit_breaker_open = false;
}

-- `asyncio.Queue.full`; a size of zero is no bound.
abbrev pub is_full : PipeWriter → Bool
is_full w = ltb 0 w.queue_maxsize && leb w.queue_maxsize (length w.queue)

-- A message that the queue has room for.
abbrev pub put_message : PipeWriter → Text → PipeWriter
put_message w message =
    let m = w.metrics in
    let queue = w.queue ++ message ∷ [] in
    record w {
      queue = queue;
      metrics = record m {
        total_enqueued = m.total_enqueued + 1;
        max_queue_depth =
            if ltb m.max_queue_depth (length queue) then length queue else m.max_queue_depth;
      };
    }

-- A message for a full queue, which drops its oldest entry.
abbrev pub replace_oldest : PipeWriter → Text → List Text → PipeWriter × Bool
replace_oldest w message [] = (
  record w { metrics = record (w.metrics) { queue_overflows = w.metrics.queue_overflows + 1 } },
  false,
)
replace_oldest w message (_ ∷ rest) = (
  record w {
    queue = rest ++ message ∷ [];
    metrics = record (w.metrics) {
      queue_overflows = w.metrics.queue_overflows + 1;
      total_enqueued = w.metrics.total_enqueued + 1;
    };
  },
  true,
)

-- `enqueue`: the writer, and what it returns.
unfoldable pub enqueue : PipeWriter → Text → PipeWriter × Bool
enqueue w message =
    if w.circuit_breaker_open
    then (w, false)
    else if is_full w
    then replace_oldest w message w.queue
    else (put_message w message, true)

-- What is counted when `writeline` has returned.
abbrev pub count_write : Bool → ℕ → PipeWriter → PipeWriter
count_write true now w = record w {
  metrics = record (w.metrics) { total_written = w.metrics.total_written + 1; last_write_ts = now };
  circuit_breaker_failures = 0;
}
count_write false now w =
    let failures = w.circuit_breaker_failures + 1 in
    record w {
      metrics = record (w.metrics) { write_failures = w.metrics.write_failures + 1 };
      circuit_breaker_failures = failures;
      circuit_breaker_open =
          if leb circuit_breaker_threshold failures then true else w.circuit_breaker_open;
    }

-- The oldest message of the queue, written to the pipe; an empty queue is a timeout.
abbrev pub write_next : Bool → ℕ → PipeWriter × Link → List Text → PipeWriter × Link
write_next takes now (w, link) [] = (w, link)
write_next takes now (w, link) (message ∷ rest) =
    let (link', ok) = writeline takes now link message in
    (count_write ok now (record w { queue = rest }), link')

-- One round of the loop of `run`.
unfoldable pub write_round : Bool → ℕ → PipeWriter × Link → PipeWriter × Link
write_round takes now (w, link) =
    if w.circuit_breaker_open
    then (record w { circuit_breaker_open = false; circuit_breaker_failures = 0 }, link)
    else write_next takes now (w, link) w.queue

-- What the tasks around the writer do: a message is given to it, its loop goes round, the pipe is connected,
-- read or closed.
pub data Step : Type 0 where
  enqueues : Text → Step
  goes_round : Bool → ℕ → Step
  connects : ℕ → (ℕ → Created) → Step
  reads : ℕ → Option (List ℕ) → Step
  closes : Step

module _ (decode : List ℕ → Text) where
  unfoldable pub step : PipeWriter × Link → Step → PipeWriter × Link
  step (w, link) (enqueues message) = ((enqueue w message).0, link)
  step (w, link) (goes_round takes now) = write_round takes now (w, link)
  step (w, (p, wire)) (connects now create) = (w, ((connect now p create).0, wire))
  step (w, (p, wire)) (reads now bytes) = (w, ((readline decode now p bytes).0, wire))
  step (w, (p, wire)) closes = (w, (close p, wire))

  unfoldable pub steps : PipeWriter × Link → List Step → PipeWriter × Link
  steps s [] = s
  steps s (a ∷ actions) = steps (step s a) actions

  -- The message for which `enqueue` returns True.
  abbrev pub taken : PipeWriter × Link → Step → List Text
  taken (w, link) (enqueues message) = if (enqueue w message).1 then message ∷ [] else []
  taken s (goes_round _ _) = []
  taken s (connects _ _) = []
  taken s (reads _ _) = []
  taken s closes = []

  -- The messages for which `enqueue` returns True, in order.
  unfoldable pub accepted : PipeWriter × Link → List Step → List Text
  accepted s [] = []
  accepted s (a ∷ actions) = taken s a ++ accepted (step s a) actions
