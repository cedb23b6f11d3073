-- ===== src/Data/Bars.antt =====
-- data/schema.py (Tick, OHLCV, BarBuffer) and data/aggregator.py. The dicts of the aggregator have the
-- three timeframes as their keys and nothing else: a lane holds what they keep for one of them.
use Prim.Native.Nat.{◌/◌}
use ghost_grid.Common.{
  ℕ, ◌+◌, ◌*◌, String, Bool, ◌&&◌, Option, none, some, List, [], ◌∷◌, ◌++◌, ltb, nat_beq, length,
  last_n, if◌then◌else◌, Floats, Float, ◌<?◌, lit, zero_f, add, sub, div, fmax, fmin, abs,
}

pub data Timeframe : Type 0 where
  m1 m3 m5 : Timeframe

-- `TIMEFRAME_MS`
abbrev pub duration_ms : Timeframe → ℕ
duration_ms m1 = 60000
duration_ms m3 = 180000
duration_ms m5 = 300000

-- `(ts // dur) * dur`
unfoldable pub bar_start : Timeframe → ℕ → ℕ
bar_start tf ts = ts / duration_ms tf * duration_ms tf

module _ ⦃F : Floats⦄ where
  pub record Tick : Type 0 where
    pub symbol : String
    pub timestamp_ms : ℕ
    pub bid : Float
    pub ask : Float
    pub spread : Float
    pub tick_volume : ℕ
    pub dominant_side : String
    pub cvd_running : Float
    pub session : String

  unfoldable pub mid : Tick → Float
  mid t = div (add t.bid t.ask) (lit 2 0)

  pub record Ohlcv : Type 0 where
    pub symbol : String
    pub timeframe : Timeframe
    pub open_price : Float
    pub high : Float
    pub low : Float
    pub close : Float
    pub volume : ℕ
    pub timestamp_ms : ℕ

  pub record BarBuffer : Type 0 where
    pub symbol : String
    pub timeframe : Timeframe
    pub max_size : ℕ
    pub bars : List Ohlcv

  -- `bars[-n:]`, which is all of the list at n = 0.
  abbrev pub from_end : ℕ → List Ohlcv → List Ohlcv
  from_end n bars = if nat_beq n 0 then bars else last_n n bars

  unfoldable pub append : BarBuffer → Ohlcv → BarBuffer
  append b bar =
      let bars = b.bars ++ bar ∷ [] in
      record b { bars = if ltb b.max_size (length bars) then from_end b.max_size bars else bars }

  pub record OpenBar : Type 0 where
    pub symbol : String
    pub timeframe : Timeframe
    pub open_ts : ℕ
    pub open_price : Float
    pub high : Float
    pub low : Float
    pub close : Float
    pub volume : ℕ

  unfoldable pub open_bar : String → Timeframe → Tick → OpenBar
  open_bar symbol tf t = record {
    symbol = symbol;
    timeframe = tf;
    open_ts = bar_start tf t.timestamp_ms;
    open_price = mid t;
    high = mid t;
    low = mid t;
    close = mid t;
    volume = 0;
  }

  unfoldable pub update_bar : OpenBar → Tick → OpenBar
  update_bar b t = record b {
    high = fmax b.high (mid t);
    low = fmin b.low (mid t);
    close = mid t;
    volume = b.volume + t.tick_volume;
  }

  unfoldable pub should_close : OpenBar → ℕ → Bool
  should_close b tick_ts_ms = ltb b.open_ts (bar_start b.timeframe tick_ts_ms)

  unfoldable pub to_ohlcv : OpenBar → Ohlcv
  to_ohlcv b = record {
    symbol = b.symbol;
    timeframe = b.timeframe;
    open_price = b.open_price;
    high = b.high;
    low = b.low;
    close = b.close;
    volume = b.volume;
    timestamp_ms = b.open_ts;
  }

  pub record Lane : Type 0 where
    pub current : Option OpenBar
    pub buffer : BarBuffer

  -- One round of the loop over the timeframes, with the bar that it completes.
  unfoldable pub tick_lane : String → Timeframe → Lane → Tick → Lane × List Ohlcv
  tick_lane symbol tf l t = elim l.current [
    | none ↦ (record l { current = some (open_bar symbol tf t) }, [])
    | some b ↦
        if should_close b t.timestamp_ms
        then (
          record { current = some (open_bar symbol tf t); buffer = append l.buffer (to_ohlcv b) },
          to_ohlcv b ∷ [],
        )
        else (record l { current = some (update_bar b t) }, [])
  ]

  pub record Aggregator : Type 0 where
    pub symbol : String
    pub lane_m1 : Lane
    pub lane_m3 : Lane
    pub lane_m5 : Lane
    pub total_ticks : ℕ
    pub ticks_processed : ℕ
    pub gaps_detected : ℕ
    pub last_close : Float

  abbrev empty_lane : String → Timeframe → ℕ → Lane
  empty_lane symbol tf max_size = record {
    current = none;
    buffer = record { symbol = symbol; timeframe = tf; max_size = max_size; bars = [] };
  }

  unfoldable pub new_aggregator : String → Aggregator
  new_aggregator symbol = record {
    symbol = symbol;
    lane_m1 = empty_lane symbol m1 300;
    lane_m3 = empty_lane symbol m3 200;
    lane_m5 = empty_lane symbol m5 100;
    total_ticks = 0;
    ticks_processed = 0;
    gaps_detected = 0;
    last_close = zero_f;
  }

  abbrev pub is_gap : Float → Float → Bool
  is_gap last_close price = zero_f <? last_close && lit 1 2 <? abs (sub price last_close)

  -- `OHLCVAggregator.on_tick`
  unfoldable pub aggregate : Aggregator → Tick → Aggregator × List Ohlcv
  aggregate a t =
      let (l1, done1) = tick_lane a.symbol m1 a.lane_m1 t in
      let (l3, done3) = tick_lane a.symbol m3 a.lane_m3 t in
      let (l5, done5) = tick_lane a.symbol m5 a.lane_m5 t in
      (
        record a {
          lane_m1 = l1;
          lane_m3 = l3;
          lane_m5 = l5;
          total_ticks = a.total_ticks + 1;
          ticks_processed = a.ticks_processed + 1;
          gaps_detected =
              if is_gap a.last_close (mid t) then a.gaps_detected + 1 else a.gaps_detected;
          last_close = mid t;
        },
        done1 ++ done3 ++ done5,
      )
