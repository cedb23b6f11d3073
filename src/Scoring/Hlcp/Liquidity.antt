-- ===== src/Scoring/Hlcp/Liquidity.antt =====
-- scoring/hlcp/liquidity_mapper.py, with the two directions as one.
use ghost_grid.Common.{
  ℕ, ◌≤◌, Bool, false, not, ◌||◌, List, [], ◌∷◌, ◌++◌, map, ltb, leb, length, select, if◌then◌else◌,
  arith, Floats, Float, ◌≤?◌, ◌<?◌, ◌=?◌, zero_f, lit, sub, div, abs, sum_from,
}
use ghost_grid.Config.{Direction, long, short}
use ghost_grid.Data.Bars.{Ohlcv, from_end}
use ghost_grid.Scoring.Snapshot.{min_by}
use ghost_grid.Scoring.Hmp.Choch.{reach}

module _ ⦃F : Floats⦄ where
  pub record LiquidityMap : Type 0 where
    pub void_nearby : Bool
    pub direction_match : Bool
    pub nearest_level : Float
    pub distance_atr : Float

  abbrev pub no_liquidity : LiquidityMap
  no_liquidity = record {
    void_nearby = false;
    direction_match = false;
    nearest_level = zero_f;
    distance_atr = lit 999 0;
  }

  -- `sorted`
  unfoldable pub insert_sorted : Float → List Float → List Float
  insert_sorted x [] = x ∷ []
  insert_sorted x (y ∷ ys) = if x ≤? y then x ∷ y ∷ ys else y ∷ insert_sorted x ys

  unfoldable pub sorted : List Float → List Float
  unfolding insert_sorted
  sorted [] = []
  sorted (x ∷ xs) = insert_sorted x (sorted xs)

  -- The level of a cluster, where it has two prices or more.
  abbrev pub level_of : List Float → List Float
  level_of cluster =
      if leb 2 (length cluster)
      then div (sum_from zero_f cluster) (lit (length cluster) 0) ∷ []
      else []

  -- The two loops: the cluster that starts at a base price, and the prices after it.
  unfoldable pub levels_from : Float → List Float → List Float → List Float
  levels_from base cluster [] = level_of cluster
  levels_from base cluster (x ∷ xs) =
      if abs (sub x base) ≤? lit 3 4
      then levels_from base (cluster ++ x ∷ []) xs
      else level_of cluster ++ levels_from x (x ∷ []) xs

  -- `_find_equal_levels`
  abbrev levels_of : List Float → List Float
  levels_of [] = []
  levels_of (x ∷ xs) = levels_from x (x ∷ []) xs

  unfoldable pub find_equal_levels : List Float → List Float
  find_equal_levels prices = levels_of (sorted prices)

  -- Whether a level lies ahead of the price in a direction.
  abbrev pub is_ahead : Direction → Float → Float → Bool
  is_ahead long price level = price <? level
  is_ahead short price level = level <? price

  abbrev map_of : Direction → Float → Float → Float → LiquidityMap
  map_of direction price atr_5m level =
      let dist_atr = div (abs (sub level price)) atr_5m in
      record {
        void_nearby = dist_atr ≤? lit 3 0;
        direction_match = is_ahead direction price level;
        nearest_level = level;
        distance_atr = dist_atr;
      }

  unfoldable pub nearest_target : Direction → Float → Float → List Float → LiquidityMap
  nearest_target direction price atr_5m [] = no_liquidity
  nearest_target direction price atr_5m (l ∷ ls) =
      map_of direction price atr_5m (min_by (λ level. abs (sub level price)) l ls)

  unfoldable pub map_liquidity : List Ohlcv → Float → Float → Direction → LiquidityMap
  map_liquidity m5_bars current_price atr_5m direction =
      if ltb (length m5_bars) 10 || atr_5m =? zero_f
      then no_liquidity
      else (let levels = find_equal_levels (map (reach direction) (from_end 50 m5_bars)) in
          nearest_target direction current_price atr_5m
            (select (is_ahead direction current_price) levels))

  unfoldable pub score_liquidity : LiquidityMap → ℕ
  score_liquidity l =
      if not l.void_nearby || not l.direction_match
      then 0
      else if l.distance_atr <? lit 1 0
      then 20
      else if l.distance_atr <? lit 2 0
      then 12
      else if l.distance_atr <? lit 3 0
      then 6
      else 0

  pub score_liquidity-le : (l : LiquidityMap) → score_liquidity l ≤ 20
  unfolding score_liquidity
  score_liquidity-le l = ground arith
