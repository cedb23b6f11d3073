-- ===== src/Data/Snapshots.antt =====
-- data/snapshot_builder.py. The session by the
-- clock is an argument. A message of the pipe is given as a tick, whose session and spread are not read.
use ghost_grid.Common.{
  ℕ, subst, ◌+◌, ◌≡◌, refl, String, Bool, true, false, ◌||◌, Bool-cases, inl, inr, Option, none,
  some, List, [], ◌∷◌, ◌++◌, drop, ltb, length, get_last?, if◌then◌else◌, string_eq, ◌==◌, Floats,
  Float, ◌≤?◌, zero_f,
}
use ghost_grid.Config.{Regime, chop}
use ghost_grid.Data.Bars.{
  Timeframe, m1, m3, m5, Ohlcv, Tick, mid, Aggregator, new_aggregator, aggregate,
}
use ghost_grid.Data.Regime.{BuiltSnapshot, RegimeSignal, no_len, compute_ema_separation, classify}
use ghost_grid.Data.Ring.{CvdEngine, new_engine, on_bar_close}
use ghost_grid.Data.Averages.{
  AtrCalculator, new_atr, update_atr, atr_value, VwapCalculator, new_vwap, update_vwap, vwap_value,
}

-- `b.timeframe == tf`
abbrev same_timeframe : Timeframe → Timeframe → Bool
same_timeframe m1 m1 = true
same_timeframe m3 m3 = true
same_timeframe m5 m5 = true
same_timeframe _ _ = false

pub record SnapshotBuilderMetrics : Type 0 where
  pub total_ticks : ℕ
  pub snapshots_produced : ℕ
  pub warmup_ticks : ℕ
  pub validation_failures : ℕ
  pub session_changes : ℕ

module _ ⦃F : Floats⦄ where
  pub record SnapshotBuilder : Type 0 where
    pub symbol : String
    pub agg : Aggregator
    pub cvd : CvdEngine
    pub vwap : VwapCalculator
    pub atr_1m : AtrCalculator
    pub atr_5m : AtrCalculator
    pub current_session : String
    pub metrics : SnapshotBuilderMetrics
    pub last_session : String
    pub price_history : List Float

  unfoldable pub new_builder : String → SnapshotBuilder
  new_builder symbol = record {
    symbol = symbol;
    agg = new_aggregator symbol;
    cvd = new_engine symbol;
    vwap = new_vwap;
    atr_1m = new_atr 14;
    atr_5m = new_atr 14;
    current_session = "";
    metrics = record {
      total_ticks = 0;
      snapshots_produced = 0;
      warmup_ticks = 0;
      validation_failures = 0;
      session_changes = 0;
    };
    last_session = "";
    price_history = [];
  }

  -- The first of the new bars of a timeframe.
  abbrev bar_of : Timeframe → List Ohlcv → Option Ohlcv
  bar_of tf [] = none
  bar_of tf (b ∷ bars) = if same_timeframe b.timeframe tf then some b else bar_of tf bars

  abbrev enter_session : SnapshotBuilder → String → SnapshotBuilder
  enter_session b session =
      let m = b.metrics in
      let changed = if session == b.last_session then false else true in
      record b {
        current_session = session;
        last_session = session;
        price_history = if changed then [] else b.price_history;
        metrics = record m {
          total_ticks = m.total_ticks + 1;
          session_changes = if changed then m.session_changes + 1 else m.session_changes;
        };
      }

  -- `append`, and `pop(0)` beyond ten prices.
  abbrev push_price : List Float → Float → List Float
  push_price prices price =
      let longer = prices ++ price ∷ [] in if ltb 10 (length longer) then drop 1 longer else longer

  abbrev close_m1 : SnapshotBuilder → Tick → Option Ohlcv → SnapshotBuilder
  close_m1 b t none = b
  close_m1 b t (some bar) = record b {
    cvd = on_bar_close b.cvd t.cvd_running b.current_session;
    atr_1m = update_atr b.atr_1m bar;
  }

  abbrev close_m5 : SnapshotBuilder → Option Ohlcv → SnapshotBuilder
  close_m5 b none = b
  close_m5 b (some bar) = record b { atr_5m = update_atr b.atr_5m bar }

  -- What a tick does to the bars and the averages.
  unfoldable pub take_tick : SnapshotBuilder → Tick → SnapshotBuilder
  take_tick b t =
      let (agg, new_bars) = aggregate b.agg t in
      let b1 = record b {
        agg = agg;
        vwap = update_vwap b.vwap t;
        price_history = push_price b.price_history (mid t);
      } in
      close_m5 (close_m1 b1 t (bar_of m1 new_bars)) (bar_of m5 new_bars)

  abbrev is_warm : SnapshotBuilder → Bool
  is_warm b =
      if ltb (length b.agg.lane_m1.buffer.bars) 20 || ltb (length b.agg.lane_m5.buffer.bars) 14
      then false
      else true

  abbrev snapshot_of : SnapshotBuilder → Tick → Regime → BuiltSnapshot
  snapshot_of b t regime = record {
    symbol = b.symbol;
    tick = t;
    bar_m1 = get_last? b.agg.lane_m1.buffer.bars;
    bar_m3 = get_last? b.agg.lane_m3.buffer.bars;
    bar_m5 = get_last? b.agg.lane_m5.buffer.bars;
    cvd_history = b.cvd.buffer;
    vwap = vwap_value b.vwap;
    atr_1m = atr_value b.atr_1m;
    atr_5m = atr_value b.atr_5m;
    session = b.current_session;
    regime = regime;
  }

  -- A tick gives no snapshot, raises, or gives one.
  pub data Built : Type 0 where
    warming raised : Built
    produced : BuiltSnapshot → Built

  abbrev build : SnapshotBuilder → Tick → Option RegimeSignal → SnapshotBuilder × Built
  build b t none = (b, raised)
  build b t (some signal) =
      let m = b.metrics in
      (
        record b { metrics = record m { snapshots_produced = m.snapshots_produced + 1 } },
        produced (snapshot_of b t signal.regime),
      )

  -- `SnapshotBuilder.on_tick`
  unfoldable pub build_on_tick : SnapshotBuilder → String → Tick → SnapshotBuilder × Built
  build_on_tick b session raw =
      let t = record raw { session = session; spread = zero_f } in
      let b' = take_tick (enter_session b session) t in
      let m = b'.metrics in
      let outcome = build b' t (classify no_len (snapshot_of b' t chop)) in
      if is_warm b'
      then outcome
      else (record b' { metrics = record m { warmup_ticks = m.warmup_ticks + 1 } }, warming)

  -- A snapshot that an average of zero let through the classifier.
  pub record IsUnclassified (s : BuiltSnapshot) : Type 0 where
    pub regime : s.regime ≡ chop
    pub averages : (s.atr_1m ≤? zero_f || s.atr_5m ≤? zero_f) ≡ true

  abbrev Allows : Built → Type 0
  Allows warming = Unit
  Allows raised = Unit
  Allows (produced s) = IsUnclassified s

  build-Allows :
      (b : SnapshotBuilder) (t : Tick)
      → Allows (build b t (classify no_len (snapshot_of b t chop))).1
  unfolding classify compute_ema_separation
  build-Allows b t =
      elim (Bool-cases (atr_value b.atr_1m ≤? zero_f || atr_value b.atr_5m ≤? zero_f)) [
        | inl flat ↦ rw flat (record { regime = refl; averages = flat })
        | inr moving ↦ rw moving tt
      ]

  on_tick-Allows :
      (b : SnapshotBuilder) (session : String) (raw : Tick) → Allows (build_on_tick b session raw).1
  unfolding build_on_tick
  on_tick-Allows b session raw =
      let t = record raw { session = session; spread = zero_f } in
      let b' = take_tick (enter_session b session) t in
      elim (is_warm b')
        as (λ c.
          Allows
            (if c then build b' t (classify no_len (snapshot_of b' t chop)) else (
              record b' {
                metrics = record (b'.metrics) { warmup_ticks = b'.metrics.warmup_ticks + 1 };
              },
              warming,
            )).1) [ true ↦ build-Allows b' t | false ↦ tt ]

  -- A tick that gives a snapshot gives one of regime CHOP in which one of the two averages is not
  -- positive.
  pub build_on_tick-IsUnclassified :
      (b : SnapshotBuilder) (session : String) (raw : Tick) (s : BuiltSnapshot)
      → (build_on_tick b session raw).1 ≡ produced s
      → IsUnclassified s
  build_on_tick-IsUnclassified b session raw s e = subst Allows e (on_tick-Allows b session raw)
