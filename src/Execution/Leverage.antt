-- ===== src/Execution/Leverage.antt =====
-- execution/leverage.py. The division cannot fail: the price is positive where it is reached.
use ghost_grid.Common.{
  ℕ, ◌+◌, ◌≤◌, ◌≡◌, Bool, true, false, ◌&&◌, ◌||◌, arith, if◌then◌else◌, Floats, Float, ◌≤?◌, ◌<?◌,
  lit, zero_f, mul, div,
}

pub record LeverageMetrics : Type 0 where
  pub leverage_calculations : ℕ
  pub leverage_1x_count : ℕ
  pub leverage_10x_count : ℕ
  pub leverage_20x_count : ℕ
  pub leverage_30x_count : ℕ
  pub calculation_errors : ℕ

unfoldable pub new_metrics : LeverageMetrics
new_metrics = record {
  leverage_calculations = 0;
  leverage_1x_count = 0;
  leverage_10x_count = 0;
  leverage_20x_count = 0;
  leverage_30x_count = 0;
  calculation_errors = 0;
}

-- The multiplier of a bucket, with the counter that it raises; fallback is the end of the loop.
pub data Bucket : Type 0 where
  stable moderate volatile fallback : Bucket

abbrev pub multiplier : Bucket → ℕ
multiplier stable = 30
multiplier moderate = 20
multiplier volatile = 10
multiplier fallback = 1

abbrev pub track : LeverageMetrics → Bucket → LeverageMetrics
track m stable = record m { leverage_30x_count = m.leverage_30x_count + 1 }
track m moderate = record m { leverage_20x_count = m.leverage_20x_count + 1 }
track m volatile = record m { leverage_10x_count = m.leverage_10x_count + 1 }
track m fallback = record m { calculation_errors = m.calculation_errors + 1 }

module _ ⦃F : Floats⦄ where
  abbrev within : Float → Float → Float → Bool
  within low high pct = low ≤? pct && pct <? high

  -- The loop over `LEVERAGE_BUCKETS`.
  unfoldable pub bucket_of : Float → Bucket
  bucket_of pct =
      if within zero_f (lit 8 1) pct
      then stable
      else if within (lit 8 1) (lit 15 1) pct
      then moderate
      else if within (lit 15 1) (lit 100 0) pct
      then volatile
      else fallback

  unfoldable pub atr_pct : Float → Float → Float
  atr_pct atr current_price = mul (div atr current_price) (lit 100 0)

  unfoldable pub calculate_leverage : LeverageMetrics → Float → Float → LeverageMetrics × ℕ
  calculate_leverage m atr current_price =
      let counted = record m { leverage_calculations = m.leverage_calculations + 1 } in
      let bucket =
        if current_price ≤? zero_f || atr <? zero_f
        then fallback
        else bucket_of (atr_pct atr current_price) in
      (track counted bucket, multiplier bucket)

  -- Every calculation is counted as one of the three multipliers or as an error.
  abbrev pub IsCounted : LeverageMetrics → Type 0
  IsCounted m =
      m.leverage_calculations
      ≡ m.leverage_10x_count + m.leverage_20x_count + m.leverage_30x_count + m.calculation_errors

  climbs :
      (pct pct' low : Float) → (pct ≤? pct') ≡ true → (low ≤? pct) ≡ true → (low ≤? pct') ≡ true
  climbs pct pct' low le h = F.lte-trans low pct pct' h le

  bucket-antitone :
      (pct pct' : Float)
      → (zero_f ≤? pct) ≡ true
      → (pct ≤? pct') ≡ true
      → multiplier (bucket_of pct') ≤ multiplier (bucket_of pct)
  unfolding bucket_of
  bucket-antitone pct pct' positive le = ground (
    arith,
    climbs pct pct' zero_f le,
    climbs pct pct' (lit 8 1) le,
    climbs pct pct' (lit 15 1) le,
    climbs pct pct' (lit 100 0) le,
  )

  -- Where the price is positive, the range is not negative and its percentage is neither, a
  -- calculation at a percentage at least as high gives no higher leverage.
  pub calculate_leverage-antitone :
      (m m' : LeverageMetrics) (atr atr' price price' : Float)
      → (price ≤? zero_f) ≡ false
      → (atr <? zero_f) ≡ false
      → (zero_f ≤? atr_pct atr price) ≡ true
      → (atr_pct atr price ≤? atr_pct atr' price') ≡ true
      → (calculate_leverage m' atr' price').1 ≤ (calculate_leverage m atr price).1
  unfolding calculate_leverage
  calculate_leverage-antitone m m' atr atr' price price' p a positive le =
      ground (arith, bucket-antitone (atr_pct atr price) (atr_pct atr' price') positive le)

  -- A calculation keeps it true that the calculations are as many as the three counters of
  -- multipliers and the errors together.
  pub calculate_leverage-IsCounted :
      (m : LeverageMetrics) (atr price : Float)
      → IsCounted m
      → IsCounted (calculate_leverage m atr price).0
  unfolding calculate_leverage
  calculate_leverage-IsCounted m atr price h = ground arith
