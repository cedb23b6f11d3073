-- ===== src/Bridge/Client.antt =====
-- bridge/pipe_client.py: the client of a named pipe. What CreateFile, ReadFile and WriteFile answer comes
-- from outside, as does the clock; the texts that WriteFile took stand beside the client.
use ghost_grid.Common.{
  ℕ, zero, suc, ◌+◌, ◌-◌, Bool, true, false, ◌&&◌, Option, none, some, is_some, List, [], ◌∷◌, ◌++◌,
  length, ltb, if◌then◌else◌,
}
use ghost_grid.Bridge.Text.{Text, strip}

pub record PipeClientMetrics : Type 0 where
  pub connection_attempts : ℕ
  pub connection_failures : ℕ
  pub connection_successes : ℕ
  pub total_reads : ℕ
  pub total_writes : ℕ
  pub read_errors : ℕ
  pub write_errors : ℕ
  pub bytes_read : ℕ
  pub bytes_written : ℕ
  pub last_read_ts : ℕ
  pub last_write_ts : ℕ
  pub uptime_s : ℕ

unfoldable pub new_client_metrics : PipeClientMetrics
new_client_metrics = record {
  connection_attempts = 0;
  connection_failures = 0;
  connection_successes = 0;
  total_reads = 0;
  total_writes = 0;
  read_errors = 0;
  write_errors = 0;
  bytes_read = 0;
  bytes_written = 0;
  last_read_ts = 0;
  last_write_ts = 0;
  uptime_s = 0;
}

pub record PipeClient : Type 0 where
  pub handle : Option ℕ
  pub connected : Bool
  pub metrics : PipeClientMetrics
  pub connection_start_time : Option ℕ

unfoldable pub new_client : PipeClient
new_client = record {
  handle = none;
  connected = false;
  metrics = new_client_metrics;
  connection_start_time = none;
}

-- What CreateFile answers.
pub data Created : Type 0 where
  created : ℕ → Created
  not_found : Created
  failed : Created

-- How `_open_pipe` ends: with a handle after so many retries, or with an exception.
pub data Opened : Type 0 where
  opened : (handle retries : ℕ) → Opened
  raised : (retries : ℕ) → Opened
  not_ready : Opened

abbrev pub max_retries : ℕ
max_retries = 30

-- The body of the loop, by what CreateFile answers.
abbrev pub after_create : Created → ℕ → Option Opened → Option Opened
after_create (created h) retry_count rest = some (opened h retry_count)
after_create not_found retry_count rest = rest
after_create failed retry_count rest = some (raised retry_count)

-- The loop from a number of retries on; none is a loop that goes on when the fuel is spent.
unfoldable pub open_loop : ℕ → (ℕ → Created) → ℕ → Option Opened
open_loop zero create retry_count = none
open_loop (suc fuel) create retry_count =
    let rest = open_loop fuel create (suc retry_count) in
    if ltb retry_count max_retries
    then after_create (create retry_count) retry_count rest
    else some not_ready

-- `_open_pipe`, where the n-th call of CreateFile answers `create n`.
unfoldable pub open_pipe : (ℕ → Created) → Option Opened
open_pipe create = open_loop (suc max_retries) create 0

-- `connect` after `_open_pipe`: the client, and whether it returns and does not raise.
abbrev pub finish_connect : ℕ → PipeClient → Option Opened → PipeClient × Bool
finish_connect now p (some (opened h _)) = (
  record {
    handle = some h;
    connected = true;
    metrics = record (p.metrics) { connection_successes = p.metrics.connection_successes + 1 };
    connection_start_time = some now;
  },
  true,
)
finish_connect now p _ = (
  record p {
    connected = false;
    metrics = record (p.metrics) { connection_failures = p.metrics.connection_failures + 1 };
  },
  false,
)

abbrev pub count_attempt : PipeClient → PipeClient
count_attempt p = record p {
  metrics = record (p.metrics) { connection_attempts = p.metrics.connection_attempts + 1 };
}

unfoldable pub connect : ℕ → PipeClient → (ℕ → Created) → PipeClient × Bool
connect now p create = finish_connect now (count_attempt p) (open_pipe create)

-- The guard of the reads and writes.
abbrev pub is_usable : PipeClient → Bool
is_usable p = p.connected && is_some p.handle

-- The bytes that ReadFile gave, or an exception.
abbrev pub take_read : (List ℕ → Text) → ℕ → PipeClient → Option (List ℕ) → PipeClient × Option Text
take_read decode now p none = (
  record p {
    connected = false;
    metrics = record (p.metrics) { read_errors = p.metrics.read_errors + 1 };
  },
  none,
)
take_read decode now p (some []) = (p, none)
take_read decode now p (some (b ∷ bytes)) = (
  record p {
    metrics = record (p.metrics) {
      total_reads = p.metrics.total_reads + 1;
      bytes_read = p.metrics.bytes_read + length (b ∷ bytes);
      last_read_ts = now;
    };
  },
  some (strip (decode (b ∷ bytes))),
)

unfoldable pub readline :
    (List ℕ → Text) → ℕ → PipeClient → Option (List ℕ) → PipeClient × Option Text
readline decode now p bytes = if is_usable p then take_read decode now p bytes else (p, none)

-- The text that is encoded for WriteFile.
abbrev pub line_of : Text → Text
line_of message = message ++ 10 ∷ []

-- The client and the texts that WriteFile took, in order.
abbrev pub Link : Type 0
Link = PipeClient × List Text

-- What WriteFile makes of a line: it takes the text, or raises.
abbrev pub take_write : Bool → ℕ → Link → Text → Link × Bool
take_write true now (p, wire) message = (
  (
    record p {
      metrics = record (p.metrics) {
        total_writes = p.metrics.total_writes + 1;
        bytes_written = p.metrics.bytes_written + length message + 1;
        last_write_ts = now;
      };
    },
    wire ++ line_of message ∷ [],
  ),
  true,
)
take_write false now (p, wire) message = (
  (
    record p {
      connected = false;
      metrics = record (p.metrics) { write_errors = p.metrics.write_errors + 1 };
    },
    wire,
  ),
  false,
)

-- `writeline`: the client, and whether it returns True.
unfoldable pub writeline : Bool → ℕ → Link → Text → Link × Bool
writeline takes now (p, wire) message =
    if is_usable p then take_write takes now (p, wire) message else ((p, wire), false)

-- `write`
unfoldable pub write : (ℕ → Created) → Bool → ℕ → Link → Text → Link × Bool
write create takes now (p, wire) message =
    if p.connected
    then writeline takes now (p, wire) message
    else (let (p', returned) = connect now p create in
        if returned then writeline takes now (p', wire) message else ((p', wire), false))

-- `close`; an exception of CloseHandle is logged, and the handle is dropped all the same.
unfoldable pub close : PipeClient → PipeClient
close p = record p {
  connected = false;
  handle = none;
  connection_start_time = if is_some p.handle then none else p.connection_start_time;
}

-- The property `metrics`
unfoldable pub read_metrics : ℕ → PipeClient → PipeClient
read_metrics now p = record p { metrics = record (p.metrics) { uptime_s = uptime p } }
  where
    uptime : PipeClient → ℕ
    uptime q = elim (q.connection_start_time) [
      | none ↦ q.metrics.uptime_s
      | some start ↦ now - start
    ]
