-- ===== src/Scoring/Mpp/Bias.antt =====
-- scoring/mpp/session_bias.py, at its lookback of six bars.
use ghost_grid.Common.{
  ℕ, ◌≤◌, Bool, false, not, ◌&&◌, ◌||◌, List, ltb, length, last_n, select, if◌then◌else◌, arith,
  Floats, Float, ◌≤?◌, ◌<?◌, ◌=?◌, zero_f, lit, div,
}
use ghost_grid.Config.{Direction, long, short}
use ghost_grid.Data.Bars.{Ohlcv}
use ghost_grid.Scoring.Hmp.OrderBlock.{goes_with}

module _ ⦃F : Floats⦄ where
  pub record SessionBiasSignal : Type 0 where
    pub strong_directional : Bool
    pub directional : Bool
    pub vwap_above : Bool
    pub bar_consistency : Float

  abbrev is_vwap_aligned : Direction → Bool → Bool
  is_vwap_aligned long above = above
  is_vwap_aligned short above = not above

  unfoldable pub compute_session_bias : List Ohlcv → Float → Float → Direction → SessionBiasSignal
  compute_session_bias m1_bars vwap current_price direction =
      if ltb (length m1_bars) 6 || vwap =? zero_f
      then record {
        strong_directional = false;
        directional = false;
        vwap_above = false;
        bar_consistency = zero_f;
      }
      else (let above = vwap <? current_price in
          let vwap_aligned = is_vwap_aligned direction above in
          let count = length (select (goes_with direction) (last_n 6 m1_bars)) in
          let consistency = div (lit count 0) (lit 6 0) in
          let bar_aligned = lit 67 2 ≤? consistency in
          record {
            strong_directional = vwap_aligned && bar_aligned;
            directional = vwap_aligned || bar_aligned;
            vwap_above = above;
            bar_consistency = consistency;
          })

  unfoldable pub score_session_bias : SessionBiasSignal → ℕ
  score_session_bias s = if s.strong_directional then 20 else if s.directional then 9 else 0

  pub score_session_bias-le : (s : SessionBiasSignal) → score_session_bias s ≤ 20
  unfolding score_session_bias
  score_session_bias-le s = ground arith
