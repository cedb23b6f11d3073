-- ===== src/Data/Averages.antt =====
-- data/atr.py and data/vwap.py: the average true range and the volume-weighted price of a session.
use ghost_grid.Common.{
  ℕ, ◌+◌, String, Bool, true, false, ◌&&◌, Option, none, some, List, [], ◌∷◌, ◌++◌, nat_beq, length,
  if◌then◌else◌, string_eq, ◌==◌, Floats, Float, ◌<?◌, ◌=?◌, lit, zero_f, add, sub, mul, div, fmax,
  abs, sum_from,
}
use ghost_grid.Data.Bars.{Ohlcv, Tick, mid}

module _ ⦃F : Floats⦄ where
  pub record AtrMetrics : Type 0 where
    pub total_bars : ℕ
    pub warmup_bars : ℕ
    pub updates : ℕ
    pub gap_days_detected : ℕ

  pub record AtrCalculator : Type 0 where
    pub period : ℕ
    pub true_ranges : List Float
    pub atr : Float
    pub initialised : Bool
    pub metrics : AtrMetrics
    pub last_close : Float

  unfoldable pub new_atr : ℕ → AtrCalculator
  new_atr period = record {
    period = period;
    true_ranges = [];
    atr = zero_f;
    initialised = false;
    metrics = record { total_bars = 0; warmup_bars = 0; updates = 0; gap_days_detected = 0 };
    last_close = zero_f;
  }

  -- `_true_range`
  unfoldable pub true_range : Ohlcv → Float → Float
  true_range bar prev_close =
      fmax (fmax (sub bar.high bar.low) (abs (sub bar.high prev_close)))
        (abs (sub bar.low prev_close))

  abbrev is_gap_up : Float → Ohlcv → Bool
  is_gap_up last_close bar = zero_f <? last_close && mul last_close (lit 1005 3) <? bar.open_price

  -- The bars before the average stands, and those after.
  abbrev warm_up : AtrCalculator → Float → AtrCalculator
  warm_up c tr =
      let m = c.metrics in
      let ranges = c.true_ranges ++ tr ∷ [] in
      let complete = nat_beq (length ranges) c.period in
      record c {
        true_ranges = ranges;
        metrics = record m { warmup_bars = m.warmup_bars + 1 };
        atr = if complete then div (sum_from zero_f ranges) (lit c.period 0) else c.atr;
        initialised = if complete then true else c.initialised;
      }

  abbrev smooth : AtrCalculator → Float → AtrCalculator
  smooth c tr =
      let m = c.metrics in
      let alpha = div (lit 1 0) (lit c.period 0) in
      record c {
        atr = add (mul alpha tr) (mul (sub (lit 1 0) alpha) c.atr);
        metrics = record m { updates = m.updates + 1 };
      }

  abbrev seen : AtrCalculator → Ohlcv → AtrCalculator
  seen c bar =
      let m = c.metrics in
      record c {
        metrics = record m {
          total_bars = m.total_bars + 1;
          gap_days_detected =
              if is_gap_up c.last_close bar then m.gap_days_detected + 1 else m.gap_days_detected;
        };
        last_close = bar.close;
      }

  -- `ATRCalculator.update`: the previous close is not passed to the true range.
  unfoldable pub update_atr : AtrCalculator → Ohlcv → AtrCalculator
  update_atr c bar =
      let tr = true_range bar zero_f in
      if c.initialised then smooth (seen c bar) tr else warm_up (seen c bar) tr

  -- `ATRCalculator.value`
  unfoldable pub atr_value : AtrCalculator → Float
  atr_value c = if c.initialised then c.atr else zero_f

  unfoldable pub update_atr_all : AtrCalculator → List Ohlcv → AtrCalculator
  update_atr_all c [] = c
  update_atr_all c (bar ∷ bars) = update_atr_all (update_atr c bar) bars

  pub record VwapMetrics : Type 0 where
    pub total_ticks : ℕ
    pub session_resets : ℕ
    pub zero_volume_skips : ℕ

  pub record VwapCalculator : Type 0 where
    pub cum_tp_volume : Float
    pub cum_volume : Float
    pub last_session : Option String
    pub metrics : VwapMetrics

  unfoldable pub new_vwap : VwapCalculator
  new_vwap = record {
    cum_tp_volume = zero_f;
    cum_volume = zero_f;
    last_session = none;
    metrics = record { total_ticks = 0; session_resets = 0; zero_volume_skips = 0 };
  }

  abbrev pub is_current : Option String → String → Bool
  is_current none session = false
  is_current (some last) session = last == session

  abbrev pub typical_price : Tick → Float
  typical_price t = div (add (add t.bid t.ask) (mid t)) (lit 3 0)

  -- The reset at a change of the session.
  abbrev enter : VwapCalculator → Tick → VwapCalculator
  enter c t =
      let m = c.metrics in
      if is_current c.last_session t.session
      then record c { metrics = record m { total_ticks = m.total_ticks + 1 } }
      else record {
        cum_tp_volume = zero_f;
        cum_volume = zero_f;
        last_session = some t.session;
        metrics = record m {
          total_ticks = m.total_ticks + 1;
          session_resets = m.session_resets + 1;
        };
      }

  abbrev accumulate : VwapCalculator → Tick → VwapCalculator
  accumulate c t =
      let m = c.metrics in
      if nat_beq t.tick_volume 0
      then record c { metrics = record m { zero_volume_skips = m.zero_volume_skips + 1 } }
      else record c {
        cum_tp_volume = add c.cum_tp_volume (mul (typical_price t) (lit t.tick_volume 0));
        cum_volume = add c.cum_volume (lit t.tick_volume 0);
      }

  -- `VWAPCalculator.update`
  unfoldable pub update_vwap : VwapCalculator → Tick → VwapCalculator
  update_vwap c t = accumulate (enter c t) t

  -- `VWAPCalculator.value`
  unfoldable pub vwap_value : VwapCalculator → Float
  vwap_value c = if c.cum_volume =? zero_f then zero_f else div c.cum_tp_volume c.cum_volume

  unfoldable pub update_vwap_all : VwapCalculator → List Tick → VwapCalculator
  update_vwap_all c [] = c
  update_vwap_all c (t ∷ ticks) = update_vwap_all (update_vwap c t) ticks
