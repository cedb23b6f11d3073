-- ===== src/Execution/Dispatcher.antt =====
-- The commands of bridge/protocol.py, and execution/dispatcher.py. The dispatcher has a pipe client, as its
-- callers construct it. What the pipe, the clock, the environment and the other tasks do during an attempt is a
-- record of the attempt.
use ghost_grid.Common.{
  ℕ, ◌+◌, Bool, true, false, Option, none, List, [], ◌∷◌, ◌++◌, ltb, if◌then◌else◌, get_or,
  string_eq, Floats, Float, zero_f,
}
use ghost_grid.Common.Fixed.{ℤ, pos}
use ghost_grid.Bridge.Text.{Text, codes, join}
use ghost_grid.Bridge.Protocol.{Message}

pub data OutboundType : Type 0 where
  order_type close_type modstop_type nuclear_type : OutboundType

-- The length of a text in UTF-8.
unfoldable pub utf8_length : Text → ℕ
utf8_length [] = 0
utf8_length (c ∷ s) =
    (if ltb c 128 then 1 else if ltb c 2048 then 2 else if ltb c 65536 then 3 else 4)
    + utf8_length s

-- The fields of a command, joined and ended by a line feed.
abbrev command_line : List Text → Text
command_line fields = join 124 (codes "V1" ∷ fields) ++ 10 ∷ []

pub record DispatchMetrics : Type 0 where
  pub orders_sent : ℕ
  pub closes_sent : ℕ
  pub dispatch_errors : ℕ
  pub pipe_timeouts : ℕ
  pub bytes_written : ℕ

pub record PipeDispatcher : Type 0 where
  pub metrics : DispatchMetrics
  pub last_response : Option Text

-- How an awaited call of the pipe client ends.
pub data Io : Type 0 where
  done timed_out broke : Io

pub data CommandType : Type 0 where
  order_command close_command nuclear_all : CommandType

module _ ⦃F : Floats⦄ where
  -- The conversions of Python's str, float and the f-strings.
  pub record Formats : Type 0 where
    pub parse_float : Text → Option Float
    pub show_float : Float → Text
    pub show_int : ℤ → Text
    pub show_type : OutboundType → Text

  unfoldable pub build_order_command : Formats → Text → Text → Text → Float → Float → Float → Text
  build_order_command f position_id symbol direction lot_size entry_price stop_loss = command_line (
      f.show_type order_type
      ∷ position_id
      ∷ symbol
      ∷ direction
      ∷ f.show_float lot_size
      ∷ f.show_float entry_price
      ∷ f.show_float stop_loss
      ∷ [])

  unfoldable pub build_close_command : Formats → Text → Text
  build_close_command f position_id = command_line (f.show_type close_type ∷ position_id ∷ [])

  unfoldable pub build_modstop_command : Formats → Text → Float → Text
  build_modstop_command f position_id new_stop =
      command_line (f.show_type modstop_type ∷ position_id ∷ f.show_float new_stop ∷ [])

  unfoldable pub build_nuclear_command : Formats → Text
  build_nuclear_command f = command_line (f.show_type nuclear_type ∷ [])

  -- `ExecutionCommand`, with what the dispatcher and the commander read.
  pub record ExecutionCommand : Type 0 where
    pub command_type : CommandType
    pub symbol : Text
    pub direction : Option Text
    pub lot_size : Option Float
    pub entry_price : Option Float
    pub position_id : Option ℤ

  -- `str(command.position_id or 0)`
  abbrev id_text : Formats → ExecutionCommand → Text
  id_text f c = f.show_int (get_or c.position_id (pos 0))

  unfoldable pub command_text : Formats → ExecutionCommand → Text
  command_text f c = elim c.command_type [
    | order_command ↦
        build_order_command f (id_text f c) c.symbol (get_or c.direction (codes "LONG"))
          (get_or c.lot_size zero_f) (get_or c.entry_price zero_f) zero_f
    | close_command ↦ build_close_command f (id_text f c)
    | nuclear_all ↦ build_nuclear_command f
  ]

  -- One attempt: PAPER_MODE, the end of the awaited connect or write, the response that is read, the
  -- messages that reach the queue before the timeout, and the clock.
  pub record Attempt : Type 0 where
    pub paper_mode : Bool
    pub io : Io
    pub response : Option Text
    pub arriving : List Message
    pub now : ℤ

  abbrev pub count_command : DispatchMetrics → CommandType → DispatchMetrics
  count_command m order_command = record m { orders_sent = m.orders_sent + 1 }
  count_command m close_command = record m { closes_sent = m.closes_sent + 1 }
  count_command m nuclear_all = m

  abbrev pub complete : Formats → ExecutionCommand → DispatchMetrics → Attempt → PipeDispatcher
  complete f c m a = record {
    metrics =
        if a.paper_mode
        then m
        else record m { bytes_written = m.bytes_written + utf8_length (command_text f c) };
    last_response = if a.paper_mode then none else a.response;
  }

  abbrev pub end_dispatch :
      Formats
      → PipeDispatcher
      → ExecutionCommand
      → DispatchMetrics
      → Attempt
      → Io
      → PipeDispatcher × Bool
  end_dispatch f d c m a done = (complete f c m a, true)
  end_dispatch f d c m a timed_out = (
    record d {
      metrics = record m {
        pipe_timeouts = m.pipe_timeouts + 1;
        dispatch_errors = m.dispatch_errors + 1;
      };
    },
    false,
  )
  end_dispatch f d c m a broke =
      (record d { metrics = record m { dispatch_errors = m.dispatch_errors + 1 } }, false)

  -- `PipeDispatcher.dispatch`
  unfoldable pub dispatch_command :
      Formats → PipeDispatcher → ExecutionCommand → Attempt → PipeDispatcher × Bool
  dispatch_command f d c a = end_dispatch f d c (count_command d.metrics c.command_type) a a.io
