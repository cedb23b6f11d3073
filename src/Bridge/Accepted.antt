-- ===== src/Bridge/Accepted.antt =====
-- Each message that the parser of bridge/protocol.py returns is in range.
use ghost_grid.Common.{
  subst, ◌+◌, ◌≡◌, true, false, not, Option, none, some, List, [], ◌∷◌, if◌then◌else◌, arith,
  Floats, Float, ◌<?◌,
}
use ghost_grid.Bridge.Text.{Text, codes, text_eq, strip, split, join, parse_int}
use ghost_grid.Bridge.Sanitize.{
  sanitize_symbol, sanitize_position_id, sanitize_direction, sanitize_dominant_side,
  sanitize_description, sanitize_volume, sanitize_timestamp_ms, sanitize_error_code, sanitize_price,
  sanitize_lots, is_side, between,
}
use ghost_grid.Bridge.Protocol.{
  Parsed, ok, fault, valid, number, validation_fault, ParseMetrics, InboundType, Message,
  parse_tick, parse_fill, parse_reject, parse_closed, parse_heartbeat, finish, parse_fields,
  parse_parts, parse_stripped, parse_inbound, tick_type, fill_type, reject_type, closed_type,
  heartbeat_type, unknown_type, inbound_type,
}
use ghost_grid.Bridge.Ranges.{
  Gives, Yields, valid-Yields, step-Yields, guard-Yields, sanitize_position_id-Gives,
  sanitize_description-Gives, sanitize_error_code-Gives, sanitize_volume-Gives,
  sanitize_timestamp_ms-Gives, sanitize_direction-Gives, sanitize_dominant_side-Gives,
  sanitize_numeric_range-Gives, IsId, IsDescription, IsTimestamp, IsPrice, IsLots, InRange,
}

module _ ⦃F : Floats⦄ where
  parse_closed-Yields :
      (parse_float : Text → Option Float) (fields : List Text)
      → Yields InRange (parse_closed parse_float fields)
  unfolding parse_closed InRange sanitize_price sanitize_lots
  parse_closed-Yields parse_float [] = tt
  parse_closed-Yields parse_float (_ ∷ []) = tt
  parse_closed-Yields parse_float (_ ∷ _ ∷ []) = tt
  parse_closed-Yields parse_float (pid ∷ price ∷ l ∷ _) =
      valid-Yields IsId InRange validation_fault (sanitize_position_id pid) _
        (sanitize_position_id-Gives pid)
        (λ position_id id. step-Yields InRange (number (parse_float price)) _ (λ raw_price.
          valid-Yields IsPrice InRange validation_fault (sanitize_price raw_price) _
            (sanitize_numeric_range-Gives raw_price _ _)
            (λ close_price is_price. step-Yields InRange (number (parse_float l)) _ (λ raw_lots.
              valid-Yields IsLots InRange validation_fault (sanitize_lots raw_lots) _
                (sanitize_numeric_range-Gives raw_lots _ _)
                (λ lots is_lots. (id, is_price, is_lots))))))

  parse_heartbeat-Yields : (fields : List Text) → Yields InRange (parse_heartbeat fields)
  unfolding parse_heartbeat InRange
  parse_heartbeat-Yields [] = tt
  parse_heartbeat-Yields (ts ∷ _) = step-Yields InRange (number (parse_int ts)) _ (λ stamp.
      valid-Yields IsTimestamp InRange validation_fault (sanitize_timestamp_ms stamp) _
        (sanitize_timestamp_ms-Gives stamp) (λ timestamp_ms h. h))

  parse_reject-Yields : (fields : List Text) → Yields InRange (parse_reject fields)
  unfolding parse_reject InRange
  parse_reject-Yields [] = tt
  parse_reject-Yields (_ ∷ []) = tt
  parse_reject-Yields (pid ∷ error ∷ rest) =
      valid-Yields IsId InRange validation_fault (sanitize_position_id pid) _
        (sanitize_position_id-Gives pid)
        (λ position_id id. step-Yields InRange (number (parse_int error)) _ (λ n.
          valid-Yields (λ k. between 1 10000 k ≡ true) InRange validation_fault
            (sanitize_error_code n) _ (sanitize_error_code-Gives n)
            (λ error_code code.
              valid-Yields IsDescription InRange validation_fault
                (sanitize_description (join 124 rest)) _
                (sanitize_description-Gives (join 124 rest)) (λ description d. (id, code, d)))))

  parse_fill-Yields :
      (parse_float : Text → Option Float) (fields : List Text)
      → Yields InRange (parse_fill parse_float fields)
  unfolding parse_fill InRange sanitize_price sanitize_lots
  parse_fill-Yields parse_float [] = tt
  parse_fill-Yields parse_float (_ ∷ []) = tt
  parse_fill-Yields parse_float (_ ∷ _ ∷ []) = tt
  parse_fill-Yields parse_float (_ ∷ _ ∷ _ ∷ []) = tt
  parse_fill-Yields parse_float (_ ∷ _ ∷ _ ∷ _ ∷ []) = tt
  parse_fill-Yields parse_float (_ ∷ _ ∷ _ ∷ _ ∷ _ ∷ []) = tt
  parse_fill-Yields parse_float (_ ∷ _ ∷ _ ∷ _ ∷ _ ∷ _ ∷ []) = tt
  parse_fill-Yields parse_float (pid ∷ sym ∷ dir ∷ price ∷ l ∷ ticket ∷ _ ∷ _) =
      valid-Yields IsId InRange validation_fault (sanitize_position_id pid) _
        (sanitize_position_id-Gives pid)
        (λ position_id id. step-Yields InRange (valid (sanitize_symbol sym)) _ (λ symbol.
          valid-Yields (λ d. is_side d ≡ true) InRange validation_fault (sanitize_direction dir) _
            (sanitize_direction-Gives dir)
            (λ direction side. step-Yields InRange (number (parse_float price)) _ (λ raw_price.
              valid-Yields IsPrice InRange validation_fault (sanitize_price raw_price) _
                (sanitize_numeric_range-Gives raw_price _ _)
                (λ fill_price is_price. step-Yields InRange (number (parse_float l)) _ (λ raw_lots.
                  valid-Yields IsLots InRange validation_fault (sanitize_lots raw_lots) _
                    (sanitize_numeric_range-Gives raw_lots _ _)
                    (λ lots is_lots.
                      step-Yields InRange (number (parse_int ticket)) _ (λ mt5_ticket. record {
                        position_id = id;
                        direction = side;
                        price = is_price;
                        lots = is_lots;
                      }))))))))

  parse_tick-Yields :
      (parse_float : Text → Option Float) (fields : List Text)
      → Yields InRange (parse_tick parse_float fields)
  unfolding parse_tick InRange sanitize_price
  parse_tick-Yields parse_float [] = tt
  parse_tick-Yields parse_float (_ ∷ []) = tt
  parse_tick-Yields parse_float (_ ∷ _ ∷ []) = tt
  parse_tick-Yields parse_float (_ ∷ _ ∷ _ ∷ []) = tt
  parse_tick-Yields parse_float (_ ∷ _ ∷ _ ∷ _ ∷ []) = tt
  parse_tick-Yields parse_float (_ ∷ _ ∷ _ ∷ _ ∷ _ ∷ []) = tt
  parse_tick-Yields parse_float (_ ∷ _ ∷ _ ∷ _ ∷ _ ∷ _ ∷ []) = tt
  parse_tick-Yields parse_float (sym ∷ ts ∷ b ∷ a ∷ v ∷ side ∷ cvd ∷ _) =
      step-Yields InRange (valid (sanitize_symbol sym)) _ (λ symbol.
        step-Yields InRange (number (parse_int ts)) _ (λ stamp.
          valid-Yields IsTimestamp InRange validation_fault (sanitize_timestamp_ms stamp) _
            (sanitize_timestamp_ms-Gives stamp)
            (λ timestamp_ms is_stamp. step-Yields InRange (number (parse_float b)) _ (λ raw_bid.
              step-Yields InRange (number (parse_float a)) _ (λ raw_ask.
                valid-Yields IsPrice InRange validation_fault (sanitize_price raw_bid) _
                  (sanitize_numeric_range-Gives raw_bid _ _)
                  (λ bid is_bid.
                    valid-Yields IsPrice InRange validation_fault (sanitize_price raw_ask) _
                      (sanitize_numeric_range-Gives raw_ask _ _)
                      (λ ask is_ask.
                        guard-Yields InRange (not (ask <? bid)) validation_fault _ (λ spread.
                          step-Yields InRange (number (parse_int v)) _ (λ volume.
                            valid-Yields (λ k. between 0 1000000 k ≡ true) InRange validation_fault
                              (sanitize_volume volume) _ (sanitize_volume-Gives volume)
                              (λ tick_volume is_volume.
                                valid-Yields (λ d. is_side d ≡ true) InRange validation_fault
                                  (sanitize_dominant_side side) _
                                  (sanitize_dominant_side-Gives side)
                                  (λ dominant_side is_known.
                                    step-Yields InRange (number (parse_float cvd)) _ (λ cvd_running.
                                      record {
                                        timestamp = is_stamp;
                                        bid = is_bid;
                                        ask = is_ask;
                                        spread = ground arith;
                                        volume = is_volume;
                                        side = is_known;
                                      }))))))))))))

  finish-InRange :
      (m : ParseMetrics) (p : Parsed Message) → Yields InRange p → Gives InRange (finish m p).1
  finish-InRange m (ok a) h = h
  finish-InRange m (fault e) h = tt

  parse_fields-InRange :
      (parse_float : Text → Option Float) (m : ParseMetrics) (type : InboundType)
      (fields : List Text)
      → Gives InRange (parse_fields parse_float m type fields).1
  unfolding parse_fields
  parse_fields-InRange parse_float m tick_type fields =
      finish-InRange m _ (parse_tick-Yields parse_float fields)
  parse_fields-InRange parse_float m fill_type fields =
      finish-InRange m _ (parse_fill-Yields parse_float fields)
  parse_fields-InRange parse_float m reject_type fields =
      finish-InRange m _ (parse_reject-Yields fields)
  parse_fields-InRange parse_float m closed_type fields =
      finish-InRange m _ (parse_closed-Yields parse_float fields)
  parse_fields-InRange parse_float m heartbeat_type fields =
      finish-InRange m _ (parse_heartbeat-Yields fields)
  parse_fields-InRange parse_float m unknown_type fields = tt

  parse_parts-InRange :
      (parse_float : Text → Option Float) (m : ParseMetrics) (parts : List Text)
      → Gives InRange (parse_parts parse_float m parts).1
  unfolding parse_parts
  parse_parts-InRange parse_float m [] = tt
  parse_parts-InRange parse_float m (version ∷ []) = tt
  parse_parts-InRange parse_float m (version ∷ type ∷ fields) =
      elim (text_eq version (codes "V1"))
        as (λ b.
          Gives InRange
            (if b
              then parse_fields parse_float (record m { total_parsed = m.total_parsed + 1 })
                  (inbound_type type) fields
              else (record m { version_mismatches = m.version_mismatches + 1 }, none)).1) [
                | true ↦ parse_fields-InRange parse_float _ (inbound_type type) fields
                | false ↦ tt
              ]

  stripped-InRange :
      (parse_float : Text → Option Float) (m : ParseMetrics) (s : Text)
      → Gives InRange (parse_stripped parse_float m s).1
  stripped-InRange parse_float m [] = tt
  stripped-InRange parse_float m (c ∷ s) = parse_parts-InRange parse_float m (split 124 (c ∷ s))

  -- A message that the parser returns is in range: prices, lots, volumes, times and error codes lie
  -- between their limits, the ask is not below the bid, sides are known, ids have 1 to 32
  -- characters, and a description has 1 to 256, none a control character below 32.
  pub parse_inbound-InRange :
      (parse_float : Text → Option Float) (m : ParseMetrics) (line : Text) (message : Message)
      → (parse_inbound parse_float m line).1 ≡ some message
      → InRange message
  unfolding parse_inbound
  parse_inbound-InRange parse_float m line message e =
      subst (Gives InRange) e (stripped-InRange parse_float m (strip line))
