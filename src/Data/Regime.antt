-- ===== src/Data/Regime.antt =====
-- data/regime.py, on the snapshots of data/schema.py, which hold one bar of each timeframe. Python's `len` comes in as
-- an argument: none is its TypeError. `no_len` is what it does on these bars, since OHLCV defines no length.
use ghost_grid.Common.{
  ◌>>=◌, ℕ, String, Bool, false, not, ◌&&◌, ◌||◌, Option, none, some, List, ltb, nat_beq,
  if◌then◌else◌, Floats, Float, ◌≤?◌, ◌<?◌, zero_f, lit, add, sub, mul, div, abs, fmax, fmin,
}
use ghost_grid.Config.{Regime, trend, chop, breakout, reversal}
use ghost_grid.Data.Bars.{Ohlcv, Tick}

pub data RegimeReason : Type 0 where
  insufficient_data high_ema_sep_expanding_atr low_ema_sep_contracting_atr : RegimeReason
  high_volume_bos_detected choch_confirmed_rsi_extreme no_strong_pattern : RegimeReason

module _ ⦃F : Floats⦄ where
  -- The snapshot as data/schema.py has it, with single bars.
  pub record BuiltSnapshot : Type 0 where
    pub symbol : String
    pub tick : Tick
    pub bar_m1 : Option Ohlcv
    pub bar_m3 : Option Ohlcv
    pub bar_m5 : Option Ohlcv
    pub cvd_history : List Float
    pub vwap : Float
    pub atr_1m : Float
    pub atr_5m : Float
    pub session : String
    pub regime : Regime

  pub record RegimeSignal : Type 0 where
    pub regime : Regime
    pub confidence : Float
    pub primary_reason : RegimeReason
    pub atr_ratio : Float
    pub ema_separation : Float

  -- `len` of a bar, or of the None in its place.
  abbrev pub no_len : Option Ohlcv → Option ℕ
  no_len bar = none

  abbrev separation : Ohlcv → Float → Float
  separation bar atr_1m =
      if zero_f <? atr_1m
      then fmin (lit 1 0)
          (fmax zero_f (div (div (abs (sub bar.close bar.open_price)) atr_1m) (lit 2 0)))
      else zero_f

  -- `_compute_ema_separation`
  unfoldable pub compute_ema_separation : (Option Ohlcv → Option ℕ) → BuiltSnapshot → Option Float
  compute_ema_separation len s = do
    bars ← len s.bar_m1
    if ltb bars 34 then some zero_f else (do bar ← s.bar_m1; some (separation bar s.atr_1m))

  -- `_compute_rsi_fast`; None has no attribute `close`.
  unfoldable pub compute_rsi_fast : Option Ohlcv → Float
  compute_rsi_fast none = lit 50 0
  compute_rsi_fast (some bar) =
      let body_range = sub bar.high bar.low in
      if body_range ≤? zero_f
      then lit 50 0
      else add (lit 25 0) (mul (div (sub bar.close bar.low) body_range) (lit 50 0))

  abbrev volume_ratio_of : ℕ → Ohlcv → Float
  volume_ratio_of tick_volume bar =
      if ltb 0 bar.volume then div (lit tick_volume 0) (lit bar.volume 0) else lit 1 0

  -- `_compute_volume_ratio`; none is the AttributeError of a missing bar.
  unfoldable pub compute_volume_ratio : BuiltSnapshot → Option Float
  compute_volume_ratio s =
      let ratio : Option Float = (do
        bar ← s.bar_m1
        some (volume_ratio_of s.tick.tick_volume bar)) in
      if nat_beq s.tick.tick_volume 0 then some (lit 5 1) else ratio

  -- `_detect_recent_bos`
  unfoldable pub detect_recent_bos : Option Ohlcv → Option Ohlcv → Bool
  detect_recent_bos (some a) (some b) = b.high <? a.close || a.close <? b.low
  detect_recent_bos _ _ = false

  -- `_detect_choch`
  unfoldable pub detect_choch : Option Ohlcv → Option Ohlcv → Bool
  detect_choch (some a) (some b) =
      a.low <? mul b.low (lit 9999 4) || mul b.high (lit 10001 4) <? a.high
  detect_choch _ _ = false

  -- `_detect_momentum_exhaustion`
  unfoldable pub detect_momentum_exhaustion : Option Ohlcv → Float → Bool
  detect_momentum_exhaustion none atr_1m = false
  detect_momentum_exhaustion (some bar) atr_1m =
      let body = abs (sub bar.close bar.open_price) in
      let upper_wick = sub bar.high (fmax bar.close bar.open_price) in
      let lower_wick = sub (fmin bar.close bar.open_price) bar.low in
      lower_wick <? upper_wick && body <? mul atr_1m (lit 3 1)

  -- The patterns, in order, from the four inputs.
  unfoldable pub regime_of : BuiltSnapshot → Float → Float → Float → Float → RegimeSignal
  regime_of s atr_ratio ema_sep rsi_7 vol_ratio =
      let signal_of : Regime → Float → RegimeReason → RegimeSignal = λ regime confidence reason.
        record {
          regime = regime;
          confidence = confidence;
          primary_reason = reason;
          atr_ratio = atr_ratio;
          ema_separation = ema_sep;
        } in
      if (lit 6 1 <? ema_sep)
        && (lit 105 2 <? atr_ratio)
        && (lit 9 1 <? vol_ratio)
        && (lit 60 0 <? rsi_7 || rsi_7 <? lit 40 0)
      then signal_of trend
          (fmin (lit 95 2) (div (mul (mul ema_sep atr_ratio) vol_ratio) (lit 25 1)))
          high_ema_sep_expanding_atr
      else if (ema_sep <? lit 25 2)
          && (atr_ratio <? lit 95 2)
          && not (lit 70 0 <? rsi_7 || rsi_7 <? lit 30 0)
      then signal_of chop (fmin (lit 95 2) (sub (lit 1 0) ema_sep)) low_ema_sep_contracting_atr
      else if (lit 2 0 <? vol_ratio)
          && (lit 1 0 <? atr_ratio)
          && detect_recent_bos s.bar_m1 s.bar_m3
      then signal_of breakout (fmin (lit 95 2) (div vol_ratio (lit 4 0))) high_volume_bos_detected
      else if detect_choch s.bar_m1 s.bar_m5
          && (lit 75 0 <? rsi_7 || rsi_7 <? lit 25 0)
          && detect_momentum_exhaustion s.bar_m1 s.atr_1m
      then signal_of reversal (fmin (lit 95 2) (div (abs (sub rsi_7 (lit 50 0))) (lit 50 0)))
          choch_confirmed_rsi_extreme
      else signal_of chop (lit 3 1) no_strong_pattern

  -- `classify`; none is an exception.
  unfoldable pub classify : (Option Ohlcv → Option ℕ) → BuiltSnapshot → Option RegimeSignal
  classify len s =
      let measured : Option RegimeSignal = (do
        ema_sep ← compute_ema_separation len s
        vol_ratio ← compute_volume_ratio s
        some (regime_of s (div s.atr_1m s.atr_5m) ema_sep (compute_rsi_fast s.bar_m1) vol_ratio)) in
      if s.atr_1m ≤? zero_f || s.atr_5m ≤? zero_f
      then some (record {
        regime = chop;
        confidence = zero_f;
        primary_reason = insufficient_data;
        atr_ratio = zero_f;
        ema_separation = zero_f;
      })
      else measured
