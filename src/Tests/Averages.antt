-- ===== src/Tests/Averages.antt =====
-- The averages and the snapshots of the feed at concrete inputs.
use ghost_grid.Common.{
  ℕ, ◌≡◌, refl, String, Bool, true, false, lookup, insert, some, none, [], ◌∷◌, ◌++◌, List, lit,
  zero_f, string_eq,
}
use ghost_grid.Common.Fixed.{fixed}
use ghost_grid.Config.{chop, trend}
use ghost_grid.Data.Bars.{Ohlcv, Tick, m1, m3, m5, new_aggregator, aggregate, tick_lane}
use ghost_grid.Data.Ring.{new_engine}
use ghost_grid.Data.Averages.{
  new_atr, new_vwap, update_vwap_all, update_vwap, vwap_value, atr_value,
}
use ghost_grid.Data.Sessions.{tp_sum, volume_total, update_vwap_all-session}
use ghost_grid.Data.Snapshots.{SnapshotBuilder, new_builder, build_on_tick, take_tick, produced}
use ghost_grid.Data.Regime.{
  BuiltSnapshot, RegimeSignal, no_len, classify, compute_ema_separation, compute_volume_ratio,
  compute_rsi_fast, regime_of,
}
use mathlib.Core.Option
use ghost_grid.Data.Router.{
  Event, for_each, new_router, symbol_rounds, alone, symbol_rounds-isolated,
}

abbrev quote : String → ℕ → Tick
quote session volume = record {
  symbol = "EURUSD";
  timestamp_ms = 61000;
  bid = lit 11000 4;
  ask = lit 11002 4;
  spread = zero_f;
  tick_volume = volume;
  dominant_side = "NEUTRAL";
  cvd_running = zero_f;
  session = session;
}

abbrev bar : Ohlcv
bar = record {
  symbol = "EURUSD";
  timeframe = m1;
  open_price = lit 11000 4;
  high = lit 11010 4;
  low = lit 10990 4;
  close = lit 11005 4;
  volume = 100;
  timestamp_ms = 0;
}

-- A tick without volume between two of a new session.
update_vwap_all-session_example :
    let ticks = quote "LONDON" 0 ∷ quote "LONDON" 5 ∷ [] in
    let c = update_vwap_all new_vwap ((quote "ASIA" 3 ∷ []) ++ quote "LONDON" 2 ∷ ticks) in
    (c.cum_tp_volume ≡ tp_sum zero_f (quote "LONDON" 2 ∷ ticks))
    × (c.cum_volume ≡ volume_total zero_f (quote "LONDON" 2 ∷ ticks))
update_vwap_all-session_example =
    update_vwap_all-session (quote "ASIA" 3 ∷ []) (quote "LONDON" 0 ∷ quote "LONDON" 5 ∷ [])
      (quote "LONDON" 2) refl (refl, (refl, tt))

abbrev five : List Ohlcv
five = bar ∷ bar ∷ bar ∷ bar ∷ bar ∷ []

-- A builder with twenty bars of each timeframe and no average yet.
abbrev filled : SnapshotBuilder
filled = record (new_builder "EURUSD") {
  agg = record (new_aggregator "EURUSD") {
    lane_m1 = record {
      current = none;
      buffer = record {
        symbol = "EURUSD";
        timeframe = m1;
        max_size = 300;
        bars = five ++ five ++ five ++ five;
      };
    };
    lane_m3 = record {
      current = none;
      buffer = record { symbol = "EURUSD"; timeframe = m3; max_size = 200; bars = five };
    };
    lane_m5 = record {
      current = none;
      buffer = record {
        symbol = "EURUSD";
        timeframe = m5;
        max_size = 100;
        bars = five ++ five ++ five;
      };
    };
  };
}

abbrev built : BuiltSnapshot
built = record {
  symbol = "EURUSD";
  tick = quote "LONDON" 5;
  bar_m1 = some bar;
  bar_m3 = some bar;
  bar_m5 = some bar;
  cvd_history = [];
  vwap = vwap_value (update_vwap new_vwap (quote "LONDON" 5));
  atr_1m = zero_f;
  atr_5m = zero_f;
  session = "LONDON";
  regime = chop;
}

filled-produces : (build_on_tick filled "LONDON" (quote "ASIA" 5)).1 ≡ produced built
unfolding build_on_tick take_tick aggregate tick_lane new_builder new_aggregator classify atr_value
    new_atr new_engine
filled-produces = refl

-- Where `len` gave the bars of a buffer, a bar that spans its range upwards would make a trend.
abbrev rising : Ohlcv
rising = record {
  symbol = "EURUSD";
  timeframe = m1;
  open_price = lit 11000 4;
  high = lit 11020 4;
  low = lit 11000 4;
  close = lit 11020 4;
  volume = 5;
  timestamp_ms = 0;
}

abbrev moving : BuiltSnapshot
moving = record built {
  tick = quote "LONDON" 5;
  bar_m1 = some rising;
  atr_1m = lit 12 4;
  atr_5m = lit 10 4;
}

moving-trend :
    Option.map (λ (s : RegimeSignal). s.regime) (classify (λ _. some 34) moving) ≡ some trend
unfolding classify compute_ema_separation compute_volume_ratio compute_rsi_fast regime_of
moving-trend = refl

moving-raises : classify no_len moving ≡ none
unfolding classify compute_ema_separation
moving-raises = refl

abbrev pairs : List String
pairs = "EURUSD" ∷ "GBPUSD" ∷ []

abbrev event_of : String → ℕ → Bool → Event
event_of symbol volume fails = record {
  symbol = symbol;
  session = "LONDON";
  tick = quote "LONDON" volume;
  fails = fails;
}

abbrev three_events : List Event
three_events = event_of "EURUSD" 1 false ∷ event_of "GBPUSD" 2 true ∷ event_of "EURUSD" 3 false ∷ []

has_builder : lookup "EURUSD" (new_router pairs).builders ≡ some (new_builder "EURUSD")
unfolding new_router for_each lookup insert
has_builder = refl

symbol_rounds-isolated_example :
    lookup "EURUSD" (symbol_rounds (new_router pairs) three_events).builders
    ≡ some (alone "EURUSD" three_events (new_builder "EURUSD"))
symbol_rounds-isolated_example =
    symbol_rounds-isolated pairs three_events "EURUSD" (new_builder "EURUSD") has_builder
