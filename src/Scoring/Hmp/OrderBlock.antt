-- ===== src/Scoring/Hmp/OrderBlock.antt =====
-- scoring/hmp/order_block.py, with the two directions as one.
use ghost_grid.Common.{
  ℕ, zero, suc, ◌+◌, ◌-◌, Bool, true, false, ◌&&◌, ◌||◌, Option, none, some, List, ltb, leb, length,
  take, drop, last_n, get_elem?, all_of, select, if◌then◌else◌, Floats, Float, ◌≤?◌, ◌<?◌, zero_f,
  lit, add, sub, mul, div,
}
use ghost_grid.Config.{Direction, long, short}
use ghost_grid.Data.Bars.{Ohlcv}
use ghost_grid.Scoring.Snapshot.{vol, volume_sum, is_bullish, is_bearish}

module _ ⦃F : Floats⦄ where
  pub record OrderBlockResult : Type 0 where
    pub found : Bool
    pub top : Float
    pub bottom : Float
    pub test_count : ℕ
    pub imbalance_ratio : Float
    pub stale : Bool

  abbrev pub no_ob : OrderBlockResult
  no_ob = record {
    found = false;
    top = zero_f;
    bottom = zero_f;
    test_count = 0;
    imbalance_ratio = zero_f;
    stale = true;
  }

  -- Whether a bar goes with a direction, or against it.
  abbrev pub goes_with : Direction → Ohlcv → Bool
  goes_with long b = is_bullish b
  goes_with short b = is_bearish b

  abbrev pub goes_against : Direction → Ohlcv → Bool
  goes_against long b = is_bearish b
  goes_against short b = is_bullish b

  abbrev pub ob_top : Direction → Ohlcv → Float
  ob_top long b = b.open_price
  ob_top short b = b.close

  abbrev pub ob_bottom : Direction → Ohlcv → Float
  ob_bottom long b = b.close
  ob_bottom short b = b.open_price

  -- Whether the price is too far from the block.
  abbrev is_far : Direction → Float → Float → Float → Bool
  is_far long price top bottom =
      price <? bottom || add top (mul (sub top bottom) (lit 2 0)) <? price
  is_far short price top bottom =
      top <? price || price <? sub bottom (mul (sub top bottom) (lit 2 0))

  -- `_count_ob_tests`: both directions have the same test.
  unfoldable pub count_ob_tests : List Ohlcv → Float → Float → ℕ
  count_ob_tests bars_after top bottom =
      length (select (λ b. b.low ≤? top && bottom ≤? b.high) bars_after)

  abbrev block : Direction → List Ohlcv → ℕ → Float → Ohlcv → OrderBlockResult
  block direction bars i avg_volume candidate =
      let test_count =
        count_ob_tests (drop (i + 4) bars) (ob_top direction candidate)
          (ob_bottom direction candidate) in
      record {
        found = true;
        top = ob_top direction candidate;
        bottom = ob_bottom direction candidate;
        test_count = test_count;
        imbalance_ratio = if zero_f <? avg_volume then div (vol candidate) avg_volume else zero_f;
        stale = leb 3 test_count;
      }

  abbrev pub is_block : Direction → List Ohlcv → ℕ → Float → Ohlcv → Bool
  is_block direction bars i price candidate =
      let subsequent = take 3 (drop (i + 1) bars) in
      goes_against direction candidate
      && (leb 3 (length subsequent) && all_of (goes_with direction) subsequent)
      && (if is_far direction price (ob_top direction candidate) (ob_bottom direction candidate)
          then false
          else true)

  -- One round of the loop.
  unfoldable pub block_at : Direction → List Ohlcv → Float → Float → ℕ → Option OrderBlockResult
  block_at direction bars price avg_volume i = elim (get_elem? bars i) [
    | none ↦ none
    | some candidate ↦
        if is_block direction bars i price candidate
        then some (block direction bars i avg_volume candidate)
        else none
  ]

  -- The loop from an index down to 2.
  unfoldable pub find_block : Direction → List Ohlcv → Float → Float → ℕ → OrderBlockResult
  find_block direction bars price avg_volume zero = no_ob
  find_block direction bars price avg_volume (suc i) =
      let earlier = find_block direction bars price avg_volume i in
      if ltb (suc i) 2
      then no_ob
      else elim (block_at direction bars price avg_volume (suc i)) [ none ↦ earlier | some b ↦ b ]

  unfoldable pub find_active_ob : List Ohlcv → Float → Direction → OrderBlockResult
  find_active_ob m5_bars current_price direction =
      if ltb (length m5_bars) 15
      then no_ob
      else (let recent = last_n 20 m5_bars in
          let avg_vol = div (lit (volume_sum recent) 0) (lit (length recent) 0) in
          let search = last_n 30 m5_bars in
          find_block direction search current_price avg_vol (length search - 4))
