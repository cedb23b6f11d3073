-- ===== src/Scoring/Mpp/Absorption.antt =====
-- scoring/mpp/absorption.py.
use ghost_grid.Common.{
  ℕ, ◌≤◌, Bool, false, ◌&&◌, List, [], ◌∷◌, ltb, length, last_n, but_last_n, if◌then◌else◌, arith,
  Floats, Float, ◌<?◌, ◌=?◌, zero_f, lit, mul, div,
}
use ghost_grid.Config.{Direction, long, short}
use ghost_grid.Data.Bars.{Ohlcv}
use ghost_grid.Scoring.Snapshot.{vol, volume_sum, body, lower_wick, upper_wick}

module _ ⦃F : Floats⦄ where
  pub record AbsorptionSignal : Type 0 where
    pub sweep_and_reclaim : Bool
    pub high_vol_rejection : Bool
    pub unusual_volume : Bool

  -- `_detect_sweep_reclaim`
  unfoldable pub detect_sweep_reclaim : Ohlcv → Ohlcv → Direction → Bool
  detect_sweep_reclaim current prev long = current.low <? prev.low && prev.low <? current.close
  detect_sweep_reclaim current prev short = prev.high <? current.high && current.close <? prev.high

  abbrev wick : Direction → Ohlcv → Float
  wick long b = lower_wick b
  wick short b = upper_wick b

  -- `_detect_hv_rejection`
  unfoldable pub detect_hv_rejection : Ohlcv → Float → Direction → Bool
  detect_hv_rejection bar avg_vol direction =
      if avg_vol =? zero_f
      then false
      else mul avg_vol (lit 20 1) <? vol bar && mul (body bar) (lit 20 1) <? wick direction bar

  abbrev no_absorption : AbsorptionSignal
  no_absorption = record {
    sweep_and_reclaim = false;
    high_vol_rejection = false;
    unusual_volume = false;
  }

  abbrev absorption_of : Direction → Float → List Ohlcv → AbsorptionSignal
  absorption_of direction avg_vol (prev ∷ current ∷ []) = record {
    sweep_and_reclaim = detect_sweep_reclaim current prev direction;
    high_vol_rejection = detect_hv_rejection current avg_vol direction;
    unusual_volume = mul avg_vol (lit 18 1) <? vol current;
  }
  absorption_of direction avg_vol _ = no_absorption

  -- With at least ten bars: the last two, and the volumes of `m1_bars[-11:-1]` over ten.
  unfoldable pub detect_absorption : List Ohlcv → Direction → AbsorptionSignal
  detect_absorption m1_bars direction =
      if ltb (length m1_bars) 10
      then no_absorption
      else (let avg_vol = div (lit (volume_sum (last_n 10 (but_last_n 1 m1_bars))) 0) (lit 10 0) in
          absorption_of direction avg_vol (last_n 2 m1_bars))

  unfoldable pub score_absorption : AbsorptionSignal → ℕ
  score_absorption s =
      if s.sweep_and_reclaim
      then 15
      else if s.high_vol_rejection
      then 10
      else if s.unusual_volume
      then 6
      else 0

  pub score_absorption-le : (s : AbsorptionSignal) → score_absorption s ≤ 15
  unfolding score_absorption
  score_absorption-le s = ground arith
