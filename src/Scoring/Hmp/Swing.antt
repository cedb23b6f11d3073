-- ===== src/Scoring/Hmp/Swing.antt =====
-- scoring/hmp/swing.py.
use mathlib.Core.List.{reverse}
use ghost_grid.Common.{
  ℕ, ◌+◌, ◌-◌, ◌*◌, Bool, ◌&&◌, Option, none, some, List, [], ◌∷◌, ◌++◌, ltb, length, take, drop,
  get_elem?, all_of, range, if◌then◌else◌, Floats, Float, ◌<?◌,
}
use ghost_grid.Data.Bars.{Ohlcv, from_end}

pub data SwingType : Type 0 where
  high_swing low_swing : SwingType

-- The bar index counts from the end of the list: `bars_index` is its negative.
module _ ⦃F : Floats⦄ where
  pub record SwingPoint : Type 0 where
    pub price : Float
    pub timestamp_ms : ℕ
    pub swing_type : SwingType
    pub index_from_end : ℕ

  -- Whether the bars on both sides of a candidate are beaten by it.
  abbrev pub beats : SwingType → Ohlcv → Ohlcv → Bool
  beats high_swing candidate b = b.high <? candidate.high
  beats low_swing candidate b = candidate.low <? b.low

  abbrev pub swing_price : SwingType → Ohlcv → Float
  swing_price high_swing b = b.high
  swing_price low_swing b = b.low

  -- The `window` bars before an index, and those after it.
  abbrev pub left_of : List Ohlcv → ℕ → ℕ → List Ohlcv
  left_of bars window i = take window (drop (i - window) bars)

  abbrev pub right_of : List Ohlcv → ℕ → ℕ → List Ohlcv
  right_of bars window i = take window (drop (i + 1) bars)

  unfoldable pub is_swing : SwingType → List Ohlcv → ℕ → ℕ → Ohlcv → Bool
  is_swing type bars window i candidate =
      all_of (beats type candidate) (left_of bars window i)
      && all_of (beats type candidate) (right_of bars window i)

  -- The swing of a candidate at an index, if it is one.
  unfoldable pub swing_of_candidate :
      SwingType → List Ohlcv → ℕ → ℕ → Option Ohlcv → List SwingPoint
  swing_of_candidate type bars window i none = []
  swing_of_candidate type bars window i (some candidate) =
      if is_swing type bars window i candidate
      then (record {
        price = swing_price type candidate;
        timestamp_ms = candidate.timestamp_ms;
        swing_type = type;
        index_from_end = length bars - i;
      })
        ∷ []
      else []

  -- One round of the loop.
  unfoldable pub swing_at : SwingType → List Ohlcv → ℕ → ℕ → List SwingPoint
  swing_at type bars window i = swing_of_candidate type bars window i (get_elem? bars i)

  unfoldable pub swings_in : SwingType → List Ohlcv → ℕ → List ℕ → List SwingPoint
  swings_in type bars window [] = []
  swings_in type bars window (i ∷ is) = swing_at type bars window i ++ swings_in type bars window is

  -- `detect_swing_highs` and `detect_swing_lows`, most recent first.
  unfoldable pub detect_swings : SwingType → List Ohlcv → ℕ → ℕ → List SwingPoint
  detect_swings type bars window lookback =
      if ltb (length bars) (window * 2 + 1)
      then []
      else (let search = from_end lookback bars in
          reverse (swings_in type search window (range window (length search - window - window))))

  abbrev pub first : List SwingPoint → Option SwingPoint
  first [] = none
  first (p ∷ _) = some p

  -- `get_last_swing_high` and `get_last_swing_low`
  unfoldable pub get_last_swing : SwingType → List Ohlcv → Option SwingPoint
  get_last_swing type bars = first (detect_swings type bars 2 30)
