-- ===== src/Scoring/Hmp/Bos.antt =====
-- scoring/hmp/bos.py, with the two directions as one.
use ghost_grid.Common.{
  Bool, false, ◌||◌, none, some, List, ltb, length, last_n, but_last_n, get_last?, if◌then◌else◌,
  Floats, Float, ◌<?◌, ◌=?◌, zero_f, sub, div, abs,
}
use ghost_grid.Config.{Direction, long, short}
use ghost_grid.Data.Bars.{Ohlcv}
use ghost_grid.Scoring.Hmp.Swing.{SwingType, high_swing, low_swing, get_last_swing}

module _ ⦃F : Floats⦄ where
  pub record BosResult : Type 0 where
    pub confirmed : Bool
    pub momentum : Float
    pub swing_level : Float
    pub mtf_aligned : Bool

  abbrev pub no_bos : BosResult
  no_bos = record {
    confirmed = false;
    momentum = zero_f;
    swing_level = zero_f;
    mtf_aligned = false;
  }

  -- The swing that a direction breaks, and whether a close is beyond it.
  abbrev pub swing_of : Direction → SwingType
  swing_of long = high_swing
  swing_of short = low_swing

  abbrev pub beyond : Direction → Float → Float → Bool
  beyond long close level = level <? close
  beyond short close level = close <? level

  -- Whether the last close of the bars is beyond the last swing of those before it.
  abbrev breaks : Direction → List Ohlcv → Bool
  breaks direction bars = elim (get_last? bars) [
    | none ↦ false
    | some current ↦ elim (get_last_swing (swing_of direction) (but_last_n 1 bars)) [
      | none ↦ false
      | some swing ↦ beyond direction current.close swing.price
    ]
  ]

  -- `_check_m3_bos`
  unfoldable pub check_m3_bos : List Ohlcv → Direction → Bool
  check_m3_bos m3_bars direction =
      if ltb (length m3_bars) 8 then false else breaks direction (last_n 15 m3_bars)

  abbrev bos_of : Direction → List Ohlcv → Float → Float → Float → BosResult
  bos_of direction m3_bars atr_5m close level =
      let confirmed = beyond direction close level in
      record {
        confirmed = confirmed;
        momentum = if confirmed then div (abs (sub close level)) atr_5m else zero_f;
        swing_level = level;
        mtf_aligned = if confirmed then check_m3_bos m3_bars direction else false;
      }

  unfoldable pub detect_bos : List Ohlcv → List Ohlcv → Direction → Float → BosResult
  detect_bos m5_bars m3_bars direction atr_5m =
      if ltb (length m5_bars) 10 || atr_5m =? zero_f then no_bos else elim (get_last? m5_bars) [
        | none ↦ no_bos
        | some current ↦ elim (get_last_swing (swing_of direction) (but_last_n 1 m5_bars)) [
          | none ↦ no_bos
          | some swing ↦ bos_of direction m3_bars atr_5m current.close swing.price
        ]
      ]
