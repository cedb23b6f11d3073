-- ===== src/Scoring/Hmp/Choch.antt =====
-- scoring/hmp/choch.py, with the two directions as one. The level of the ATR is not read.
use ghost_grid.Common.{
  Bool, false, ◌&&◌, ◌||◌, none, some, List, ltb, length, last_n, but_last_n, get_last?,
  if◌then◌else◌, Floats, Float, ◌<?◌, zero_f, lit, mul, div,
}
use ghost_grid.Config.{Direction, long, short}
use ghost_grid.Data.Bars.{Ohlcv}
use ghost_grid.Scoring.Snapshot.{vol, volume_sum}
use ghost_grid.Scoring.Hmp.Swing.{detect_swings, first}
use ghost_grid.Scoring.Hmp.Bos.{swing_of, beyond}

pub data Quality : Type 0 where
  no_quality low_quality medium_quality high_quality : Quality

module _ ⦃F : Floats⦄ where
  pub record ChochResult : Type 0 where
    pub confirmed : Bool
    pub quality : Quality
    pub level : Float

  abbrev pub no_choch : ChochResult
  no_choch = record { confirmed = false; quality = no_quality; level = zero_f }

  -- `_m5_confirms`
  unfoldable pub m5_confirms : List Ohlcv → Float → Direction → Bool
  m5_confirms m5_bars level direction =
      if ltb (length m5_bars) 2 then false else elim (get_last? m5_bars) [
        | none ↦ false
        | some current ↦ beyond direction current.close level
      ]

  -- The price of a bar that reaches furthest in a direction.
  abbrev pub reach : Direction → Ohlcv → Float
  reach long b = b.high
  reach short b = b.low

  -- The average volume of the twenty bars before the current one.
  abbrev average_volume : List Ohlcv → Float
  average_volume m3_bars =
      if ltb (length m3_bars) 21
      then zero_f
      else div (lit (volume_sum (last_n 20 (but_last_n 1 m3_bars))) 0) (lit 20 0)

  abbrev is_high_volume : List Ohlcv → Ohlcv → Bool
  is_high_volume m3_bars current =
      let avg_vol = average_volume m3_bars in
      if zero_f <? avg_vol then mul avg_vol (lit 12 1) <? vol current else false

  abbrev quality_of : Bool → Bool → Bool → Quality
  quality_of close_beyond m5_confirmed high_vol =
      if close_beyond && m5_confirmed && high_vol
      then high_quality
      else if close_beyond
      then medium_quality
      else low_quality

  unfoldable pub choch_of : Direction → List Ohlcv → List Ohlcv → Ohlcv → Float → ChochResult
  choch_of direction m3_bars m5_bars current level =
      let close_beyond = beyond direction current.close level in
      let wick_beyond = beyond direction (reach direction current) level in
      if wick_beyond
      then record {
        confirmed = close_beyond || wick_beyond;
        quality =
            quality_of close_beyond (m5_confirms m5_bars level direction)
              (is_high_volume m3_bars current);
        level = level;
      }
      else no_choch

  unfoldable pub detect_choch : List Ohlcv → List Ohlcv → Direction → ChochResult
  detect_choch m3_bars m5_bars direction =
      if ltb (length m3_bars) 10 then no_choch else elim (get_last? m3_bars) [
        | none ↦ no_choch
        | some current ↦
            elim (first (detect_swings (swing_of direction) (but_last_n 1 m3_bars) 2 20)) [
              | none ↦ no_choch
              | some target ↦ choch_of direction m3_bars m5_bars current target.price
            ]
      ]
