-- ===== src/Scoring/Hmp/Fvg.antt =====
-- scoring/hmp/fvg.py, with the two directions as one.
use ghost_grid.Common.{
  Bool, true, false, ◌&&◌, ◌||◌, List, [], ◌∷◌, ltb, length, select, if◌then◌else◌, Floats, Float,
  ◌<?◌, ◌=?◌, zero_f, lit, sub, div, abs,
}
use ghost_grid.Config.{Direction, long, short}
use ghost_grid.Data.Bars.{Ohlcv, from_end}
use ghost_grid.Scoring.Snapshot.{min_by}

pub data GapDirection : Type 0 where
  no_gap bullish bearish : GapDirection

module _ ⦃F : Floats⦄ where
  pub record FvgResult : Type 0 where
    pub found : Bool
    pub top : Float
    pub bottom : Float
    pub gap_size : Float
    pub unfilled : Bool
    pub distance_pct : Float
    pub direction : GapDirection

  abbrev pub no_fvg : FvgResult
  no_fvg = record {
    found = false;
    top = zero_f;
    bottom = zero_f;
    gap_size = zero_f;
    unfilled = false;
    distance_pct = lit 999 0;
    direction = no_gap;
  }

  -- The distance of the price from the boundary of a gap, in ATR.
  abbrev gap_distance : Float → Float → Float → Float
  gap_distance price boundary atr_5m =
      if zero_f <? atr_5m then div (abs (sub price boundary)) atr_5m else lit 999 0

  -- `_check_fvg`
  unfoldable pub check_fvg : Ohlcv → Ohlcv → Float → Float → Direction → FvgResult
  check_fvg c0 c2 current_price atr_5m long =
      if c0.high <? c2.low
      then record {
        found = true;
        top = c2.low;
        bottom = c0.high;
        gap_size = sub c2.low c0.high;
        unfilled = c0.high <? current_price;
        distance_pct = gap_distance current_price c0.high atr_5m;
        direction = bullish;
      }
      else no_fvg
  check_fvg c0 c2 current_price atr_5m short =
      if c2.high <? c0.low
      then record {
        found = true;
        top = c0.low;
        bottom = c2.high;
        gap_size = sub c0.low c2.high;
        unfilled = current_price <? c0.low;
        distance_pct = gap_distance current_price c0.low atr_5m;
        direction = bearish;
      }
      else no_fvg

  -- The loop over the triples of consecutive bars.
  unfoldable pub gaps : Float → Float → Direction → List Ohlcv → List FvgResult
  gaps price atr_5m direction (c0 ∷ c1 ∷ c2 ∷ rest) =
      check_fvg c0 c2 price atr_5m direction ∷ gaps price atr_5m direction (c1 ∷ c2 ∷ rest)
  gaps price atr_5m direction _ = []

  abbrev pub is_open_gap : FvgResult → Bool
  is_open_gap f = f.found && f.unfilled

  unfoldable pub nearest : List FvgResult → FvgResult
  nearest [] = no_fvg
  nearest (f ∷ fs) = min_by (λ (g : FvgResult). g.distance_pct) f fs

  unfoldable pub find_nearest_fvg : List Ohlcv → Float → Float → Direction → FvgResult
  find_nearest_fvg m3_bars current_price atr_5m direction =
      if ltb (length m3_bars) 3 || atr_5m =? zero_f
      then no_fvg
      else nearest (select is_open_gap (gaps current_price atr_5m direction (from_end 20 m3_bars)))
