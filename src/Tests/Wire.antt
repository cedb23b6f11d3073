-- ===== src/Tests/Wire.antt =====
-- Lines of the pipe at concrete inputs.
use ghost_grid.Common.{
  ℕ, List, ◌+◌, ◌≡◌, refl, last_n, take, some, none, Option, [], ◌∷◌, Float, lit, arith,
  if◌then◌else◌,
}
use ghost_grid.Common.Fixed.{fixed, pos}
use ghost_grid.Bridge.Text.{
  Text, codes, text_eq, strip, strip_left, strip_right, join, is_space, parse_int, digits,
}
use ghost_grid.Bridge.Sanitize.{is_symbol_char}
use ghost_grid.Bridge.Protocol.{
  new_parse_metrics, TickMessage, tick_message, FillMessage, Message, fill_message,
  heartbeat_message, parse_inbound,
}
use ghost_grid.Bridge.Lines.{IsLine, counted, fill_line-refused}
use ghost_grid.Bridge.Ranges.{InRange, IsTick}
use ghost_grid.Bridge.Accepted.{parse_inbound-InRange}
use ghost_grid.Bridge.Reader.{new_reader, tick_queue}
use ghost_grid.Bridge.Queues.{dispatch_all, ticks_of, fills_of, dispatch_all-kept}
use ghost_grid.Bridge.Intake.{IsIntake, act_all, reads, takes_tick, takes_fill, act_all-IsIntake}
use ghost_grid.Bridge.Renders.{IsSymbol, Renders, tick_line-read}

-- Reads the three floats of the line below, and nothing else.
abbrev parse_float : Text → Option Float
parse_float s =
    if text_eq s (codes "1.1000")
    then some (lit 11000 4)
    else if text_eq s (codes "1.1002")
    then some (lit 11002 4)
    else if text_eq s (codes "5")
    then some (lit 5 0)
    else none

abbrev line : Text
line = codes " V1|TICK|EURUSD|1748823600123|1.1000|1.1002|12|BUY|5"

abbrev tick : TickMessage
tick = record {
  symbol = codes "EURUSD";
  timestamp_ms = pos 1748823600123;
  bid = lit 11000 4;
  ask = lit 11002 4;
  tick_volume = pos 12;
  dominant_side = codes "BUY";
  cvd_running = lit 5 0;
}

abbrev fill : FillMessage
fill = record {
  position_id = codes "7";
  symbol = codes "EURUSD";
  direction = codes "BUY";
  fill_price = lit 11000 4;
  lots = lit 1 1;
  mt5_ticket = pos 77;
}

tick-IsSymbol : IsSymbol tick.symbol
unfolding is_symbol_char
tick-IsSymbol = record { nonempty = omega arith; short_enough = omega arith; chars = ground arith }

tick-IsTick : IsTick tick
unfolding text_eq
tick-IsTick = record {
  timestamp = refl;
  bid = (refl, refl);
  ask = (refl, refl);
  spread = refl;
  volume = refl;
  side = refl;
}

tick-Renders :
    Renders parse_float tick
      (codes "1748823600123")
      (codes "1.1000")
      (codes "1.1002")
      (codes "12")
      (codes "5")
unfolding text_eq parse_int digits strip strip_left strip_right is_space
tick-Renders = record {
  timestamp = refl;
  bid_read = refl;
  ask_read = refl;
  volume_read = refl;
  cvd_read = refl;
}

line-IsLine : IsLine line (codes "TICK") (
    tick.symbol
    ∷ codes "1748823600123"
    ∷ codes "1.1000"
    ∷ codes "1.1002"
    ∷ codes "12"
    ∷ tick.dominant_side
    ∷ codes "5"
    ∷ [])
unfolding strip strip_left strip_right is_space join
line-IsLine = record { text = refl; separated = ground arith }

tick_line-read_example : parse_inbound parse_float new_parse_metrics line ≡ (
  record (counted new_parse_metrics) { tick_count = new_parse_metrics.tick_count + 1 },
  some (tick_message tick),
)
tick_line-read_example =
    tick_line-read parse_float new_parse_metrics tick line (codes "1748823600123") (codes "1.1000")
      (codes "1.1002") (codes "12") (codes "5") tick-IsSymbol tick-IsTick tick-Renders line-IsLine

line-read : (parse_inbound parse_float new_parse_metrics line).1 ≡ some (tick_message tick)
line-read = rw tick_line-read_example refl

parse_inbound-InRange_example : InRange (tick_message tick)
parse_inbound-InRange_example =
    parse_inbound-InRange parse_float new_parse_metrics line (tick_message tick) line-read

abbrev fill_line : Text
fill_line = codes "V1|FILL|A1|EURUSD|BUY|1.1000|5|77"

fill_line-IsLine :
    IsLine fill_line
      (codes "FILL")
      (codes "A1" ∷ codes "EURUSD" ∷ codes "BUY" ∷ codes "1.1000" ∷ codes "5" ∷ codes "77" ∷ [])
unfolding strip strip_left strip_right is_space join
fill_line-IsLine = record { text = refl; separated = ground arith }

fill_line-refused_example : parse_inbound parse_float new_parse_metrics fill_line ≡ (
  record (counted new_parse_metrics) { parse_errors = new_parse_metrics.parse_errors + 1 },
  none,
)
fill_line-refused_example =
    fill_line-refused parse_float new_parse_metrics fill_line (codes "A1") (codes "EURUSD")
      (codes "BUY") (codes "1.1000") (codes "5") (codes "77") fill_line-IsLine

-- Two ticks and a fill, then a heartbeat.
abbrev arrivals : List (ℕ × Message)
arrivals =
    (1, tick_message tick)
    ∷ (2, fill_message fill)
    ∷ (3, tick_message tick)
    ∷ (4, heartbeat_message (pos 4))
    ∷ []

dispatch_all-kept_example :
    let r = dispatch_all (new_reader 0) arrivals in
    (tick_queue r (codes "EURUSD") ≡ last_n 50 (ticks_of (codes "EURUSD") arrivals))
    × (r.fill_queue ≡ take 100 (fills_of arrivals))
dispatch_all-kept_example = dispatch_all-kept 0 arrivals (codes "EURUSD")

act_all-IsIntake_example :
    IsIntake
      (act_all parse_float
        (new_reader 0, new_parse_metrics)
        (reads 1 (some line) ∷ takes_tick (codes "EURUSD") ∷ takes_fill ∷ reads 2 none ∷ [])).0
act_all-IsIntake_example =
    act_all-IsIntake parse_float 0 new_parse_metrics
      (reads 1 (some line) ∷ takes_tick (codes "EURUSD") ∷ takes_fill ∷ reads 2 none ∷ [])
