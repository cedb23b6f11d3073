-- ===== src/Scoring/Hlcp/Ribbon.antt =====
-- regime/indicators/ema_ribbon.py and scoring/hlcp/trend_alignment.py.
use ghost_grid.Common.{
  ℕ, ◌+◌, ◌≤◌, Bool, true, false, ◌&&◌, Option, none, some, ltb, leb, if◌then◌else◌, arith, Floats,
  Float, ◌<?◌, zero_f, lit, add, sub, mul, div, abs, fmin,
}
use ghost_grid.Config.{Direction, long, short}
use ghost_grid.Data.Bars.{Ohlcv}

module _ ⦃F : Floats⦄ where
  pub record EmaState : Type 0 where
    pub ema8 : Float
    pub ema13 : Float
    pub ema21 : Float
    pub ema34 : Float
    pub slope_strength : Float
    pub separation : Float

  -- Whether the first average leads the second in a direction.
  abbrev pub leads : Direction → Float → Float → Bool
  leads long a b = b <? a
  leads short a b = a <? b

  unfoldable pub full_alignment : EmaState → Direction → Bool
  full_alignment s d = leads d s.ema8 s.ema13 && leads d s.ema13 s.ema21 && leads d s.ema21 s.ema34

  abbrev one_if : Bool → ℕ
  one_if true = 1
  one_if false = 0

  unfoldable pub partial_alignment : EmaState → Direction → Bool
  partial_alignment s d = leb 2 (
      one_if (leads d s.ema8 s.ema13)
      + one_if (leads d s.ema13 s.ema21)
      + one_if (leads d s.ema21 s.ema34))

  unfoldable pub is_fanned : EmaState → Bool
  is_fanned s = lit 30 2 <? s.slope_strength

  -- The calculator: the averages of the four periods, and how many bars it has seen.
  pub record EmaRibbonCalculator : Type 0 where
    pub avg8 : Option Float
    pub avg13 : Option Float
    pub avg21 : Option Float
    pub avg34 : Option Float
    pub bar_count : ℕ
    pub state : Option EmaState

  unfoldable pub new_ribbon : EmaRibbonCalculator
  new_ribbon = record {
    avg8 = none;
    avg13 = none;
    avg21 = none;
    avg34 = none;
    bar_count = 0;
    state = none;
  }

  -- The next average of a period.
  abbrev pub next_average : ℕ → Float → Option Float → Float
  next_average period price none = price
  next_average period price (some avg) =
      let alpha = div (lit 2 0) (lit (period + 1) 0) in
      add (mul avg (sub (lit 1 0) alpha)) (mul price alpha)

  abbrev state_of : Float → Float → Float → Float → Float → EmaState
  state_of atr a b c d =
      let separation = abs (sub a d) in
      record {
        ema8 = a;
        ema13 = b;
        ema21 = c;
        ema34 = d;
        slope_strength = if zero_f <? atr then fmin (div separation atr) (lit 1 0) else zero_f;
        separation = separation;
      }

  unfoldable pub update_ribbon :
      EmaRibbonCalculator → Ohlcv → Float → EmaRibbonCalculator × Option EmaState
  update_ribbon r bar atr =
      let a = next_average 8 bar.close r.avg8 in
      let b = next_average 13 bar.close r.avg13 in
      let c = next_average 21 bar.close r.avg21 in
      let d = next_average 34 bar.close r.avg34 in
      let count = r.bar_count + 1 in
      let is_short = ltb count 34 in
      let s = state_of atr a b c d in
      (
        record {
          avg8 = some a;
          avg13 = some b;
          avg21 = some c;
          avg34 = some d;
          bar_count = count;
          state = if is_short then r.state else some s;
        },
        if is_short then none else some s,
      )

  unfoldable pub score_trend_alignment : EmaState → Direction → ℕ
  score_trend_alignment s d =
      if full_alignment s d
      then (if lit 75 2 <? s.slope_strength
          then 25
          else if lit 40 2 <? s.slope_strength
          then 18
          else 10)
      else if partial_alignment s d
      then 12
      else 0

  pub score_trend_alignment-le : (s : EmaState) (d : Direction) → score_trend_alignment s d ≤ 25
  unfolding score_trend_alignment
  score_trend_alignment-le s d = ground arith
