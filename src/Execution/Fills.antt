-- ===== src/Execution/Fills.antt =====
-- execution/fill_handler.py. The queue is the messages that arrive before the timeout. `float` on a text and
-- `str` on an int are parameters.
use ghost_grid.Common.{
  ℕ, ◌+◌, Bool, true, false, ◌&&◌, Option, none, some, List, [], ◌∷◌, nat_beq, if◌then◌else◌,
  Floats, Float, zero_f,
}
use ghost_grid.Common.Fixed.{ℤ, pos}
use ghost_grid.Bridge.Text.{Text, codes, text_eq, strip, split, parse_int}
use ghost_grid.Bridge.Protocol.{
  ParseMetrics, FillMessage, RejectMessage, ClosedMessage, Message, tick_message, fill_message,
  reject_message, closed_message, heartbeat_message, parse_inbound,
}
use ghost_grid.Execution.Retry.{OrderStatus, fill, reject, failed}

pub record FillHandlerMetrics : Type 0 where
  pub fills_received : ℕ
  pub rejects_received : ℕ
  pub failed_received : ℕ
  pub parse_errors : ℕ
  pub malformed_responses : ℕ

unfoldable pub new_handler : FillHandlerMetrics
new_handler = record {
  fills_received = 0;
  rejects_received = 0;
  failed_received = 0;
  parse_errors = 0;
  malformed_responses = 0;
}

-- `s.startswith(prefix)`
abbrev starts_with : Text → Text → Bool
starts_with [] s = true
starts_with (c ∷ prefix) [] = false
starts_with (c ∷ prefix) (d ∷ s) = nat_beq c d && starts_with prefix s

abbrev malformed : FillHandlerMetrics → FillHandlerMetrics
malformed h = record h { malformed_responses = h.malformed_responses + 1 }

abbrev count_fill : FillHandlerMetrics → FillHandlerMetrics
count_fill h = record h { fills_received = h.fills_received + 1 }

abbrev count_reject : FillHandlerMetrics → FillHandlerMetrics
count_reject h = record h { rejects_received = h.rejects_received + 1 }

abbrev count_failed : FillHandlerMetrics → FillHandlerMetrics
count_failed h = record h { failed_received = h.failed_received + 1 }

module _ ⦃F : Floats⦄ where
  pub record FillResult : Type 0 where
    pub status : OrderStatus
    pub symbol : Text
    pub position_id : ℤ
    pub fill_price : Float
    pub fill_time_ms : ℤ
    pub request_id : Text
    pub reason : Option Text

  -- A result that could be built; none is an exception, which is counted.
  abbrev built : FillHandlerMetrics → Option FillResult → FillHandlerMetrics × Option FillResult
  built h none = (record h { parse_errors = h.parse_errors + 1 }, none)
  built h (some result) = (h, some result)

  abbrev with_id : Option ℤ → (ℤ → FillResult) → Option FillResult
  with_id none f = none
  with_id (some id) f = some (f id)

  abbrev with_price : Option Float → (Float → Option FillResult) → Option FillResult
  with_price none f = none
  with_price (some price) f = f price

  unfoldable pub parse_fill_message :
      (ℤ → Text) → ℤ → FillHandlerMetrics → FillMessage → FillHandlerMetrics × Option FillResult
  parse_fill_message show_int now h msg = built (count_fill h) (
      with_id (parse_int msg.position_id) (λ id. record {
        status = fill;
        symbol = msg.symbol;
        position_id = id;
        fill_price = msg.fill_price;
        fill_time_ms = now;
        request_id = show_int msg.mt5_ticket;
        reason = none;
      }))

  unfoldable pub parse_reject_message :
      FillHandlerMetrics → RejectMessage → FillHandlerMetrics × Option FillResult
  parse_reject_message h msg = built (count_reject h) (
      with_id (parse_int msg.position_id) (λ id. record {
        status = reject;
        symbol = [];
        position_id = id;
        fill_price = zero_f;
        fill_time_ms = pos 0;
        request_id = msg.position_id;
        reason = some msg.description;
      }))

  unfoldable pub parse_closed_message :
      FillHandlerMetrics → ClosedMessage → FillHandlerMetrics × Option FillResult
  parse_closed_message h msg = built h (
      with_id (parse_int msg.position_id) (λ id. record {
        status = failed;
        symbol = msg.position_id;
        position_id = id;
        fill_price = msg.close_price;
        fill_time_ms = pos 0;
        request_id = msg.position_id;
        reason = some (codes "CLOSED");
      }))

  -- `_parse_fill` on the fields after FILL
  unfoldable pub parse_legacy_fill :
      (Text → Option Float)
      → FillHandlerMetrics
      → List Text
      → FillHandlerMetrics × Option FillResult
  parse_legacy_fill parse_float h (symbol ∷ pid ∷ price ∷ time ∷ request ∷ _) =
      built (count_fill h) (
        with_price (parse_float price) (λ p. elim (parse_int time) [
          | none ↦ none
          | some ms ↦ with_id (parse_int pid) (λ id. record {
            status = fill;
            symbol = symbol;
            position_id = id;
            fill_price = p;
            fill_time_ms = ms;
            request_id = request;
            reason = none;
          })
        ]))
  parse_legacy_fill parse_float h _ = (malformed (count_fill h), none)

  abbrev order_result : OrderStatus → ℤ → Text → FillResult
  order_result status id reason = record {
    status = status;
    symbol = [];
    position_id = id;
    fill_price = zero_f;
    fill_time_ms = pos 0;
    request_id = [];
    reason = some reason;
  }

  -- `_parse_reject` and `_parse_failed`
  unfoldable pub parse_legacy_reject :
      FillHandlerMetrics → List Text → FillHandlerMetrics × Option FillResult
  parse_legacy_reject h (reason ∷ _) = (count_reject h, some (order_result reject (pos 0) reason))
  parse_legacy_reject h _ = (malformed (count_reject h), none)

  unfoldable pub parse_legacy_failed :
      FillHandlerMetrics → List Text → FillHandlerMetrics × Option FillResult
  parse_legacy_failed h (pid ∷ reason ∷ _) =
      built (count_failed h) (with_id (parse_int pid) (λ id. order_result failed id reason))
  parse_legacy_failed h _ = (malformed (count_failed h), none)

  -- A message of the protocol, or none.
  abbrev pub of_message :
      (ℤ → Text) → ℤ → FillHandlerMetrics → Option Message → FillHandlerMetrics × Option FillResult
  of_message show_int now h (some (fill_message msg)) = parse_fill_message show_int now h msg
  of_message show_int now h (some (reject_message msg)) = parse_reject_message h msg
  of_message show_int now h (some (closed_message msg)) = parse_closed_message h msg
  of_message show_int now h _ = (malformed h, none)

  unfoldable pub parse_legacy :
      (Text → Option Float)
      → FillHandlerMetrics
      → List Text
      → FillHandlerMetrics × Option FillResult
  parse_legacy parse_float h [] = (malformed h, none)
  parse_legacy parse_float h (type ∷ fields) =
      if text_eq type (codes "FILL")
      then parse_legacy_fill parse_float h fields
      else if text_eq type (codes "REJECT")
      then parse_legacy_reject h fields
      else if text_eq type (codes "FAILED")
      then parse_legacy_failed h fields
      else (malformed h, none)

  abbrev pub parse_stripped_response :
      (Text → Option Float)
      → (ℤ → Text)
      → ℤ
      → FillHandlerMetrics × ParseMetrics
      → Text
      → (FillHandlerMetrics × ParseMetrics) × Option FillResult
  parse_stripped_response parse_float show_int now (h, m) [] = ((malformed h, m), none)
  parse_stripped_response parse_float show_int now (h, m) (c ∷ s) =
      let (m', message) = parse_inbound parse_float m (c ∷ s) in
      let (h1, modern) = of_message show_int now h message in
      let (h2, legacy) = parse_legacy parse_float h (split 124 (c ∷ s)) in
      if starts_with (codes "V1|") (c ∷ s) then ((h1, m'), modern) else ((h2, m), legacy)

  -- `parse_response`
  unfoldable pub parse_response :
      (Text → Option Float)
      → (ℤ → Text)
      → ℤ
      → FillHandlerMetrics × ParseMetrics
      → Text
      → (FillHandlerMetrics × ParseMetrics) × Option FillResult
  parse_response parse_float show_int now s response =
      parse_stripped_response parse_float show_int now s (strip response)

  -- `wait_for_fill`: the messages that are left on the queue come back too. A closed position of the id that
  -- is waited for has no fill price, and gives a rejection.
  unfoldable pub wait_for_fill :
      (ℤ → Text)
      → ℤ
      → FillHandlerMetrics
      → Text
      → List Message
      → (FillHandlerMetrics × Option FillResult) × List Message
  wait_for_fill show_int now h request_id [] = ((h, none), [])
  wait_for_fill show_int now h request_id (fill_message msg ∷ queue) =
      (parse_fill_message show_int now h msg, queue)
  wait_for_fill show_int now h request_id (reject_message msg ∷ queue) =
      (parse_reject_message h msg, queue)
  wait_for_fill show_int now h request_id (closed_message msg ∷ queue) =
      let rest = wait_for_fill show_int now h request_id queue in
      if text_eq msg.position_id request_id
      then elim (parse_int msg.position_id) [
        | none ↦ rest
        | some id ↦ (
          (
            h,
            some (record {
              status = reject;
              symbol = [];
              position_id = id;
              fill_price = zero_f;
              fill_time_ms = now;
              request_id = request_id;
              reason = none;
            }),
          ),
          queue,
        )
      ]
      else rest
  wait_for_fill show_int now h request_id (tick_message _ ∷ queue) =
      wait_for_fill show_int now h request_id queue
  wait_for_fill show_int now h request_id (heartbeat_message _ ∷ queue) =
      wait_for_fill show_int now h request_id queue
