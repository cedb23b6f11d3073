-- ===== src/Execution/Commander.antt =====
-- execution/commander.py: two attempts for an order, and the closes.
use ghost_grid.Common.{
  ℕ, ◌+◌, ◌-◌, String, Bool, true, false, Option, none, some, List, [], ◌∷◌, ◌++◌, if◌then◌else◌,
  get_or, string_eq, Floats, Float, zero_f,
}
use ghost_grid.Common.Fixed.{ℤ, pos}
use ghost_grid.Bridge.Text.{Text, codes}
use ghost_grid.Bridge.Protocol.{ParseMetrics, Message}
use ghost_grid.Execution.Retry.{
  sent, fill, RetryOrchestrator, should_retry, mark_success, mark_failed,
}
use ghost_grid.Execution.Leverage.{LeverageMetrics, calculate_leverage}
use ghost_grid.Execution.Fills.{FillHandlerMetrics, FillResult, parse_response, wait_for_fill}
use ghost_grid.Execution.Dispatcher.{
  PipeDispatcher, order_command, close_command, nuclear_all, Formats, ExecutionCommand, Attempt,
  dispatch_command,
}

pub record CommanderMetrics : Type 0 where
  pub positions_opened : ℕ
  pub positions_closed : ℕ
  pub execution_successes : ℕ
  pub execution_failures : ℕ
  pub open_position_count : ℕ

module _ ⦃F : Floats⦄ where
  -- The commander with its dispatcher, fill handler, the queue that this reads, and its other parts.
  pub record Commander : Type 0 where
    pub dispatcher : PipeDispatcher
    pub handler : FillHandlerMetrics
    pub parser : ParseMetrics
    pub fill_queue : Option (List Message)
    pub orchestrator : RetryOrchestrator
    pub leverage : LeverageMetrics
    pub metrics : CommanderMetrics

  abbrev pub is_fill : Option FillResult → Bool
  is_fill none = false
  is_fill (some r) = elim r.status [ fill ↦ true | _ ↦ false ]

  -- The direct confirmation; without a queue there is none.
  abbrev pub wait :
      Formats → Commander → String → Attempt → Option (List Message) → Commander × Option FillResult
  wait f s request_id a none = (s, none)
  wait f s request_id a (some queue) =
      let ((h, result), rest) =
        wait_for_fill f.show_int a.now s.handler (codes request_id) (queue ++ a.arriving) in
      (record s { handler = h; fill_queue = some rest }, result)

  abbrev sent_result : ExecutionCommand → String → FillResult
  sent_result c request_id = record {
    status = sent;
    symbol = c.symbol;
    position_id = pos 0;
    fill_price = get_or c.entry_price zero_f;
    fill_time_ms = pos 0;
    request_id = codes request_id;
    reason = some (codes "PAPER_MODE");
  }

  -- How an attempt ends: with a result, without one for good, or with another attempt.
  pub data Ended : Type 0 where
    returns : Option FillResult → Ended
    continues : Ended

  abbrev pub or_continue : Option FillResult → Ended
  or_continue none = continues
  or_continue (some result) = returns (some result)

  -- The fallback on the response that the dispatcher has kept.
  abbrev pub fall_back :
      Formats → Commander → String → ExecutionCommand → Attempt → Option Text → Commander × Ended
  fall_back f s request_id c a none =
      (s, if a.paper_mode then returns (some (sent_result c request_id)) else continues)
  fall_back f s request_id c a (some []) = (s, continues)
  fall_back f s request_id c a (some (x ∷ text)) =
      let ((h, p), parsed) =
        parse_response f.parse_float f.show_int a.now (s.handler, s.parser) (x ∷ text) in
      (record s { handler = h; parser = p }, or_continue parsed)

  -- An attempt after a dispatch that succeeded.
  abbrev pub confirm : Formats → Commander → String → ExecutionCommand → Attempt → Commander × Ended
  confirm f s request_id c a =
      let (waited, result) = wait f s request_id a s.fill_queue in
      let fallen = fall_back f waited request_id c a waited.dispatcher.last_response in
      if is_fill result then (waited, returns result) else fallen

  unfoldable pub attempt_once :
      Formats → Commander → String → ExecutionCommand → Attempt → Commander × Ended
  attempt_once f s request_id c a =
      let (d, success) = dispatch_command f s.dispatcher c a in
      let s' = record s { dispatcher = d } in
      let (orchestrator, again) =
        should_retry s.orchestrator request_id none (some "Dispatch failed") in
      let confirmed = confirm f s' request_id c a in
      if success
      then confirmed
      else (record s' { orchestrator = orchestrator }, if again then continues else returns none)

  abbrev pub after_second : Commander × Ended → Commander × Option FillResult
  after_second (s, returns result) = (s, result)
  after_second (s, continues) = (s, none)

  abbrev pub after_first :
      Formats
      → String
      → ExecutionCommand
      → Attempt
      → Commander × Ended
      → Commander × Option FillResult
  after_first f request_id c a (s, returns result) = (s, result)
  after_first f request_id c a (s, continues) = after_second (attempt_once f s request_id c a)

  -- `_dispatch_with_retry`: two attempts at most.
  unfoldable pub dispatch_with_retry :
      Formats
      → Commander
      → String
      → ExecutionCommand
      → Attempt
      → Attempt
      → Commander × Option FillResult
  dispatch_with_retry f s request_id c first second =
      after_first f request_id c second (attempt_once f s request_id c first)

  -- `fill_result.status in {FILL, SENT}`
  abbrev pub is_opened : Option FillResult → Bool
  is_opened none = false
  is_opened (some r) = elim r.status [ fill ↦ true | sent ↦ true | _ ↦ false ]

  -- `ValidatedOrder`, with what reaches the command.
  pub record ValidatedOrder : Type 0 where
    pub symbol : Text
    pub direction : Text
    pub lot_size : Float
    pub request_id : String

  abbrev pub count_opened : Commander → String → Commander
  count_opened s request_id =
      let m = s.metrics in
      record s {
        metrics = record m {
          positions_opened = m.positions_opened + 1;
          execution_successes = m.execution_successes + 1;
          open_position_count = m.open_position_count + 1;
        };
        orchestrator = mark_success s.orchestrator request_id;
      }

  abbrev pub count_not_opened : Commander → String → Commander
  count_not_opened s request_id =
      let m = s.metrics in
      record s {
        metrics = record m { execution_failures = m.execution_failures + 1 };
        orchestrator = mark_failed s.orchestrator request_id;
      }

  abbrev pub settle : Commander × Option FillResult → String → Commander × Option FillResult
  settle (s, result) request_id =
      if is_opened result
      then (count_opened s request_id, result)
      else (count_not_opened s request_id, none)

  abbrev pub order_of : ValidatedOrder → Float → ExecutionCommand
  order_of order price = record {
    command_type = order_command;
    symbol = order.symbol;
    direction = some order.direction;
    lot_size = some order.lot_size;
    entry_price = some price;
    position_id = none;
  }

  unfoldable pub open_position :
      Formats
      → Commander
      → ValidatedOrder
      → Float
      → Float
      → Attempt
      → Attempt
      → Commander × Option FillResult
  open_position f s order atr price first second =
      let s' = record s { leverage = (calculate_leverage s.leverage atr price).0 } in
      settle (dispatch_with_retry f s' order.request_id (order_of order price) first second)
        order.request_id

  abbrev close_of : Text → ℤ → ExecutionCommand
  close_of symbol position_id = record {
    command_type = close_command;
    symbol = symbol;
    direction = none;
    lot_size = none;
    entry_price = none;
    position_id = some position_id;
  }

  unfoldable pub close_position : Formats → Commander → Text → ℤ → Attempt → Commander × Bool
  close_position f s symbol position_id a =
      let (d, success) = dispatch_command f s.dispatcher (close_of symbol position_id) a in
      let m = s.metrics in
      (
        record s {
          dispatcher = d;
          metrics =
              if success
              then record m {
                positions_closed = m.positions_closed + 1;
                open_position_count = m.open_position_count - 1;
              }
              else m;
        },
        success,
      )

  unfoldable pub close_all : Formats → Commander → Attempt → Commander × Bool
  close_all f s a =
      let (d, success) =
        dispatch_command f s.dispatcher
          (record (close_of [] (pos 0)) { command_type = nuclear_all; position_id = none }) a in
      let m = s.metrics in
      (
        record s {
          dispatcher = d;
          metrics = if success then record m { positions_closed = m.positions_closed + 1 } else m;
        },
        success,
      )
