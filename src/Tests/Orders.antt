-- ===== src/Tests/Orders.antt =====
-- An order through the commander at concrete inputs.
use ghost_grid.Common.{true, none, some, [], lit, string_eq}
use ghost_grid.Common.Fixed.{fixed, pos}
use ghost_grid.Bridge.Text.{codes}
use ghost_grid.Bridge.Protocol.{new_parse_metrics}
use ghost_grid.Execution.Retry.{new_orchestrator}
use ghost_grid.Execution.Leverage.{new_metrics}
use ghost_grid.Execution.Fills.{new_handler}
use ghost_grid.Execution.Dispatcher.{Formats, Attempt, done, broke}
use ghost_grid.Execution.Commander.{Commander, ValidatedOrder, open_position}
use ghost_grid.Execution.Orders.{IsSettled, open_position-IsSettled}

abbrev formats : Formats
formats = record {
  parse_float = λ s. none;
  show_float = λ x. codes "1.0";
  show_int = λ n. codes "0";
  show_type = λ t. codes "ORDER";
}

abbrev idle : Commander
idle = record {
  dispatcher = record {
    metrics = record {
      orders_sent = 0;
      closes_sent = 0;
      dispatch_errors = 0;
      pipe_timeouts = 0;
      bytes_written = 0;
    };
    last_response = none;
  };
  handler = new_handler;
  parser = new_parse_metrics;
  fill_queue = some [];
  orchestrator = new_orchestrator;
  leverage = new_metrics;
  metrics = record {
    positions_opened = 0;
    positions_closed = 0;
    execution_successes = 0;
    execution_failures = 0;
    open_position_count = 0;
  };
}

abbrev order : ValidatedOrder
order = record {
  symbol = codes "EURUSD";
  direction = codes "LONG";
  lot_size = lit 1 1;
  request_id = "A";
}

-- The connect breaks in the first attempt and is done in the second.
abbrev breaks : Attempt
breaks = record { paper_mode = true; io = broke; response = none; arriving = []; now = pos 1 }

abbrev works : Attempt
works = record breaks { io = done; now = pos 2 }

open_position-IsSettled_example :
    let r = open_position formats idle order (lit 1 3) (lit 11 1) breaks works in
    IsSettled idle "A" r.0 r.1
open_position-IsSettled_example =
    open_position-IsSettled formats idle order (lit 1 3) (lit 11 1) breaks works
