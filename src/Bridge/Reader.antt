-- ===== src/Bridge/Reader.antt =====
-- bridge/reader.py and bridge/health.py: the messages of the pipe in bounded queues, and the age of the last
-- heartbeat. Times are milliseconds; the metrics of the parser, a global there, are passed along.
use ghost_grid.Common.{
  ℕ, ◌+◌, ◌-◌, Bool, true, Option, none, some, List, [], ◌∷◌, ◌++◌, drop, length, ltb,
  if◌then◌else◌, Key, Dict, lookup, insert, get_or, Floats, Float,
}
use ghost_grid.Bridge.Text.{Text, text_eq, text_eq_iff}
use ghost_grid.Bridge.Protocol.{
  ParseMetrics, TickMessage, Message, tick_message, fill_message, reject_message, closed_message,
  heartbeat_message, parse_inbound,
}

instance abbrev pub text_key : Key Text
text_key = record { same_key = text_eq; same_key_iff = text_eq_iff }

pub record ReaderMetrics : Type 0 where
  pub total_lines_read : ℕ
  pub messages_dispatched : ℕ
  pub dispatch_errors : ℕ
  pub ticks_dispatched : ℕ
  pub fills_dispatched : ℕ
  pub rejects_dispatched : ℕ
  pub closed_dispatched : ℕ
  pub heartbeats_dispatched : ℕ
  pub tick_queue_overflows : ℕ
  pub fill_queue_overflows : ℕ
  pub last_read_ts : ℕ

unfoldable pub new_reader_metrics : ReaderMetrics
new_reader_metrics = record {
  total_lines_read = 0;
  messages_dispatched = 0;
  dispatch_errors = 0;
  ticks_dispatched = 0;
  fills_dispatched = 0;
  rejects_dispatched = 0;
  closed_dispatched = 0;
  heartbeats_dispatched = 0;
  tick_queue_overflows = 0;
  fill_queue_overflows = 0;
  last_read_ts = 0;
}

module _ ⦃F : Floats⦄ where
  pub record PipeReader : Type 0 where
    pub tick_queues : Dict Text (List TickMessage)
    pub fill_queue : List Message
    pub last_heartbeat_ts : ℕ
    pub metrics : ReaderMetrics

  unfoldable pub new_reader : ℕ → PipeReader
  new_reader now = record {
    tick_queues = [];
    fill_queue = [];
    last_heartbeat_ts = now;
    metrics = new_reader_metrics;
  }

  -- `get_tick_queue`
  unfoldable pub tick_queue : PipeReader → Text → List TickMessage
  tick_queue r symbol = get_or (lookup symbol r.tick_queues) []

  -- `put_nowait` on the queue of the fills; a message is counted by its kind once it is in.
  abbrev put_fill : PipeReader → Message → ReaderMetrics → PipeReader
  put_fill r message counted =
      let m = r.metrics in
      let room = ltb (length r.fill_queue) 100 in
      record r {
        fill_queue = if room then r.fill_queue ++ message ∷ [] else r.fill_queue;
        metrics =
            if room
            then counted
            else record m { fill_queue_overflows = m.fill_queue_overflows + 1 };
      }

  -- `put_nowait` on the queue of a symbol; a full queue drops its oldest tick.
  abbrev put_tick : PipeReader → TickMessage → PipeReader
  put_tick r t =
      let queue = tick_queue r t.symbol in
      let m = r.metrics in
      let room = ltb (length queue) 50 in
      record r {
        tick_queues =
            insert t.symbol ((if room then queue else drop 1 queue) ++ t ∷ []) r.tick_queues;
        metrics = record m {
          tick_queue_overflows =
              if room then m.tick_queue_overflows else m.tick_queue_overflows + 1;
          ticks_dispatched = m.ticks_dispatched + 1;
        };
      }

  -- `_dispatch`
  unfoldable pub dispatch : ℕ → PipeReader → Message → PipeReader
  dispatch now r (tick_message t) = put_tick r t
  dispatch now r (fill_message f) =
      put_fill r (fill_message f)
        (record (r.metrics) { fills_dispatched = r.metrics.fills_dispatched + 1 })
  dispatch now r (reject_message f) =
      put_fill r (reject_message f)
        (record (r.metrics) { rejects_dispatched = r.metrics.rejects_dispatched + 1 })
  dispatch now r (closed_message f) =
      put_fill r (closed_message f)
        (record (r.metrics) { closed_dispatched = r.metrics.closed_dispatched + 1 })
  dispatch now r (heartbeat_message _) = record r {
    last_heartbeat_ts = now;
    metrics = record (r.metrics) { heartbeats_dispatched = r.metrics.heartbeats_dispatched + 1 };
  }

  abbrev pub count_line : ℕ → PipeReader → PipeReader
  count_line now r = record r {
    metrics = record (r.metrics) {
      total_lines_read = r.metrics.total_lines_read + 1;
      last_read_ts = now;
    };
  }

  abbrev pub dispatch_parsed : ℕ → PipeReader → Option Message → PipeReader
  dispatch_parsed now r none = r
  dispatch_parsed now r (some message) =
      let r' = dispatch now r message in
      record r' {
        metrics = record (r'.metrics) { messages_dispatched = r'.metrics.messages_dispatched + 1 };
      }

  -- One round of the loop; no line is a lost connection.
  unfoldable pub read_round :
      (Text → Option Float)
      → ℕ
      → PipeReader × ParseMetrics
      → Option Text
      → PipeReader × ParseMetrics
  read_round parse_float now (r, m) none = (r, m)
  read_round parse_float now (r, m) (some line) =
      let (m', message) = parse_inbound parse_float m line in
      (dispatch_parsed now (count_line now r) message, m')

-- What a check of the heartbeat finds.
pub data Health : Type 0 where
  missing stale fresh : Health

-- A round of `PipeHealthMonitor.run`: the flag afterwards. Clocks that run backwards are left out.
unfoldable pub check_health : Bool → ℕ → ℕ → Bool × Health
check_health disconnected now last_heartbeat_ts =
    let elapsed = now - last_heartbeat_ts in
    if ltb 30000 elapsed
    then (true, missing)
    else if ltb 10000 elapsed
    then (disconnected, stale)
    else (disconnected, fresh)
