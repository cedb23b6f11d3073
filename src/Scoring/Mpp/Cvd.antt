-- ===== src/Scoring/Mpp/Cvd.antt =====
-- scoring/mpp/cvd_divergence.py and scoring/mpp/footprint.py. The square root is a parameter.
use ghost_grid.Common.{
  ℕ, Bool, false, not, ◌&&◌, ◌||◌, List, [], ◌∷◌, map, ltb, length, last_n, but_last_n,
  if◌then◌else◌, Floats, Float, ◌<?◌, zero_f, lit, add, sub, mul, div, abs, sum_from,
}
use ghost_grid.Config.{Direction, long, short}
use ghost_grid.Data.Bars.{Ohlcv}
use ghost_grid.Data.Ring.{zip_sub, at_end}
use ghost_grid.Scoring.Snapshot.{vol}

module _ ⦃F : Floats⦄ where
  pub record CvdSignal : Type 0 where
    pub divergence_confirmed : Bool
    pub z_score : Float
    pub direction : Direction
    pub trend_aligned : Bool

  abbrev smooth_from : Float → Float → List Float → List Float
  smooth_from alpha last [] = []
  smooth_from alpha last (v ∷ vs) =
      let next = add (mul alpha v) (mul (sub (lit 1 0) alpha) last) in
      next ∷ smooth_from alpha next vs

  -- `_ema_smooth`
  unfoldable pub ema_smooth : Float → List Float → List Float
  ema_smooth alpha [] = []
  ema_smooth alpha (v ∷ vs) = v ∷ smooth_from alpha v vs

  -- The standard deviation of the values about their mean; one billionth where they are all the same.
  unfoldable pub deviation : (Float → Float) → Float → List Float → Float
  deviation sqrt mean values =
      let n = lit (length values) 0 in
      let variance = div (sum_from zero_f (map (λ v. mul (sub v mean) (sub v mean)) values)) n in
      if zero_f <? variance then sqrt variance else lit 1 9

  abbrev mean_of : List Float → Float
  mean_of values = div (sum_from zero_f values) (lit (length values) 0)

  abbrev close_at : ℕ → List Ohlcv → Float
  close_at n bars = at_end n (map (λ (b : Ohlcv). b.close) bars)

  -- Steps 6: the signal of a move of the price and one of the CVD.
  unfoldable pub classify : Bool → Bool → Float → CvdSignal
  classify price_up cvd_up z =
      let bearish_div = price_up && not cvd_up in
      let bullish_div = not price_up && cvd_up in
      record {
        divergence_confirmed = (bearish_div || bullish_div) && lit 2 0 <? abs z;
        z_score = z;
        direction =
            if bearish_div
            then short
            else if bullish_div
            then long
            else if price_up
            then long
            else short;
        trend_aligned = (price_up && cvd_up) || (not price_up && not cvd_up);
      }

  unfoldable pub detect_cvd_divergence : (Float → Float) → List Float → List Ohlcv → CvdSignal
  detect_cvd_divergence sqrt cvd_history m1_bars =
      if ltb (length cvd_history) 20 || ltb (length m1_bars) 11
      then record {
        divergence_confirmed = false;
        z_score = zero_f;
        direction = long;
        trend_aligned = false;
      }
      else (let residuals = zip_sub cvd_history (ema_smooth (lit 15 2) cvd_history) in
          let recent = last_n 20 residuals in
          let z = div (at_end 1 residuals) (deviation sqrt (mean_of recent) recent) in
          classify (close_at 11 m1_bars <? close_at 1 m1_bars)
            (at_end 11 cvd_history <? at_end 1 cvd_history) z)

  -- `detect_volume_anomaly` with its default of twenty bars.
  unfoldable pub detect_volume_anomaly : (Float → Float) → List Ohlcv → Bool × Float
  detect_volume_anomaly sqrt m1_bars =
      if ltb (length m1_bars) 21
      then (false, zero_f)
      else (let history = map vol (last_n 20 (but_last_n 1 m1_bars)) in
          let current = at_end 1 (map vol m1_bars) in
          let mean_v = mean_of history in
          let z = div (sub current mean_v) (deviation sqrt mean_v history) in (lit 2 0 <? abs z, z))
