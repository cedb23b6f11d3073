-- ===== src/Positions/Weakness.antt =====
-- positions/weakness.py.
use ghost_grid.Common.{
  Bool, false, ◌&&◌, List, [], ◌∷◌, map, ltb, length, last_n, but_last_n, if◌then◌else◌, Floats,
  Float, ◌≤?◌, ◌<?◌, ◌=?◌, lit, zero_f, neg, add, sub, mul, div, fmax, sum_from,
}
use ghost_grid.Config.{Direction, long, short}
use ghost_grid.Positions.Models.{Bar}

module _ ⦃F : Floats⦄ where
  pub record WeaknessSignal : Type 0 where
    pub rsi_extreme : Bool
    pub engulfing : Bool
    pub vol_cliff : Bool
    pub all_three : Bool
    pub rsi_value : Float

  -- The differences of consecutive closes.
  unfoldable pub diffs : List Float → List Float
  diffs [] = []
  diffs (x ∷ []) = []
  diffs (x ∷ y ∷ xs) = sub y x ∷ diffs (y ∷ xs)

  rsi3 : List Bar → Float
  unfolding diffs
  rsi3 bars =
      let ds = diffs (map (λ (b : Bar). b.close) (last_n 4 bars)) in
      let ag = div (sum_from zero_f (map (λ (d : Float). fmax d zero_f) ds)) (lit 3 0) in
      let al = div (sum_from zero_f (map (λ (d : Float). fmax (neg d) zero_f) ds)) (lit 3 0) in
      if ltb (length bars) 4
      then lit 500 1
      else if al =? zero_f
      then lit 1000 1
      else sub (lit 1000 1) (div (lit 1000 1) (add (lit 10 1) (div ag al)))

  unfoldable pub is_engulfing : Bar → Bar → Direction → Bool
  is_engulfing current prev long =
      (current.close <? current.open_price)
      && (prev.open_price <? prev.close)
      && (prev.close ≤? current.open_price)
      && (current.close ≤? prev.open_price)
  is_engulfing current prev short =
      (current.open_price <? current.close)
      && (prev.close <? prev.open_price)
      && (current.open_price ≤? prev.close)
      && (prev.open_price ≤? current.close)

  abbrev rsi_is_extreme : Direction → Float → Bool
  rsi_is_extreme long rsi = lit 75 0 <? rsi
  rsi_is_extreme short rsi = rsi <? lit 25 0

  abbrev no_weakness : WeaknessSignal
  no_weakness = record {
    rsi_extreme = false;
    engulfing = false;
    vol_cliff = false;
    all_three = false;
    rsi_value = lit 500 1;
  }

  -- With at least six bars: `m1_bars[-1]`, `m1_bars[-2]` and the volumes of `m1_bars[-6:-1]`.
  weakness_of : Direction → List Bar → List Bar → WeaknessSignal
  unfolding rsi3 is_engulfing
  weakness_of direction bars (prev ∷ current ∷ []) =
      let rsi = rsi3 bars in
      let window = last_n 5 (but_last_n 1 bars) in
      let avg_vol = div (sum_from zero_f (map (λ (b : Bar). b.volume) window)) (lit 5 0) in
      let rsi_extreme = rsi_is_extreme direction rsi in
      let engulfing = is_engulfing current prev direction in
      let vol_cliff : Bool =
        if zero_f <? avg_vol then current.volume <? mul avg_vol (lit 30 2) else false in
      record {
        rsi_extreme = rsi_extreme;
        engulfing = engulfing;
        vol_cliff = vol_cliff;
        all_three = rsi_extreme && engulfing && vol_cliff;
        rsi_value = rsi;
      }
  weakness_of direction bars _ = no_weakness

  unfoldable pub detect_weakness : List Bar → Direction → WeaknessSignal
  unfolding weakness_of
  detect_weakness m1_bars direction =
      if ltb (length m1_bars) 6
      then no_weakness
      else weakness_of direction m1_bars (last_n 2 m1_bars)
