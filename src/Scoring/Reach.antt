-- ===== src/Scoring/Reach.antt =====
-- Which scores scoring/fusion.py can reach, and what scoring/gate.py does with them.
use ghost_grid.Common.{
  ℕ, ◌+◌, ◌≤◌, ◌<◌, ◌≡◌, true, arith, some, get_last?, lookup, get_or, lookup-insert_self,
  string_eq, Floats, Float, lit, mul, round, ◌≤?◌,
}
use ghost_grid.Config.{
  Direction, long, short, Regime, trend, chop, breakout, reversal, other_regime,
}
use ghost_grid.Data.Bars.{Ohlcv}
use ghost_grid.Scoring.Snapshot.{MarketSnapshot}
use ghost_grid.Scoring.Gate.{
  ConfluenceScore, ConfluenceGate, evaluate, decide, discard, threshold_of, above_threshold,
}
use ghost_grid.Scoring.Weights.{
  Table, Weights, get_normalized_weights, IsTable, IsWeights, IsNonneg,
  get_normalized_weights-IsWeights,
}
use ghost_grid.Scoring.Hmp.Engine.{calculate_hmp-InRubric}
use ghost_grid.Scoring.Hlcp.Ribbon.{new_ribbon, update_ribbon}
use ghost_grid.Scoring.Hlcp.Engine.{
  Ribbons, advance_ribbon, calculate_hlcp, calculate_hlcp-InRubric,
}
use ghost_grid.Scoring.Mpp.Engine.{calculate_mpp-InRubric}
use ghost_grid.Scoring.Fusion.{multiplier, weigh, score_side, score_confluence}

module _ ⦃F : Floats⦄ where
  -- A product grows with a score.
  weighted_mono :
      (w : Float) (m n : ℕ) → IsNonneg w → m ≤ n → (mul w (lit m 0) ≤? mul w (lit n 0)) ≡ true
  weighted_mono w m n h le =
      rw (F.mul_comm w (lit m 0), F.mul_comm w (lit n 0))
        (F.mul-mono (lit m 0) (lit n 0) w (F.lit-mono m n le) h)

  -- The composite grows with the scores.
  pub weigh_mono :
      (w : Weights) (a b c a' b' c' : ℕ)
      → IsWeights w
      → a ≤ a'
      → b ≤ b'
      → c ≤ c'
      → weigh w a b c ≤ weigh w a' b' c'
  unfolding weigh
  weigh_mono w a b c a' b' c' v p q r = F.round-mono _ _ (
      F.add-mono _ _ _ _
        (F.add-mono _ _ _ _ (weighted_mono w.hmp_weight a a' v.hmp p)
          (weighted_mono w.hlcp_weight b b' v.hlcp q))
        (weighted_mono w.mpp_weight c c' v.mpp r))

  -- The scores of a side are those of the rubrics.
  pub score_side-le :
      (sqrt : Float → Float) (w : Weights) (ribbons : Ribbons) (snap : MarketSnapshot)
      (d : Direction)
      → let s = (score_side sqrt w ribbons snap d).1 in
        (s.hmp ≤ 60)
        × (s.hlcp ≤ 60)
        × (s.mpp ≤ 60)
        × (s.composite ≤ 180)
        × (s.composite ≤ weigh w s.hmp s.hlcp s.mpp)
  unfolding score_side
  score_side-le sqrt w ribbons snap d =
      let a = calculate_hmp-InRubric snap d in
      let b = calculate_hlcp-InRubric ribbons snap d in
      let c = calculate_mpp-InRubric sqrt snap d in
      (
        omega (arith, a.total, a.bos, a.choch, a.fvg, a.order_block),
        omega (arith, b.total),
        omega (arith, c.total, c.cvd, c.bias, c.absorption),
        omega arith,
        omega arith,
      )

  side-le :
      (sqrt : Float → Float) (w : Weights) (ribbons : Ribbons) (snap : MarketSnapshot)
      (d : Direction)
      → IsWeights w
      → (score_side sqrt w ribbons snap d).1.composite ≤ weigh w 60 60 60
  side-le sqrt w ribbons snap d v =
      let (a, b, c, _, e) = score_side-le sqrt w ribbons snap d in
      omega (arith, e, weigh_mono w _ _ _ 60 60 60 v a b c)

  -- Rounding after the multiplier of a regime.
  scaled_mono :
      (m n : ℕ) (r : Regime)
      → m ≤ n
      → round (mul (lit m 0) (multiplier r)) ≤ round (mul (lit n 0) (multiplier r))
  scaled_mono m n r le =
      F.round-mono _ _ (F.mul-mono _ _ (multiplier r) (F.lit-mono m n le) (multiplier-nonneg r))
    where
      multiplier-nonneg : (r : Regime) → IsNonneg (multiplier r)
      multiplier-nonneg trend = F.lit-nonneg 105 2
      multiplier-nonneg chop = F.lit-nonneg 85 2
      multiplier-nonneg breakout = F.lit-nonneg 100 2
      multiplier-nonneg reversal = F.lit-nonneg 90 2
      multiplier-nonneg (other_regime _) = F.lit-nonneg 10 1

  pub score_confluence-le :
      (sqrt : Float → Float) (table : Table) (ribbons : Ribbons) (snap : MarketSnapshot) (limit : ℕ)
      → IsTable table
      → weigh (get_normalized_weights table) 60 60 60 ≤ limit
      → (score_confluence sqrt table ribbons snap).1.composite
        ≤ round (mul (lit limit 0) (multiplier snap.regime))
  unfolding score_confluence
  score_confluence-le sqrt table ribbons snap limit v le =
      let w = get_normalized_weights table in
      let up = score_side sqrt w ribbons snap long in
      let down = score_side sqrt w up.0 snap short in
      let hw = get_normalized_weights-IsWeights table v in
      ground (
        arith,
        scaled_mono up.1.composite limit snap.regime
            (omega (arith, side-le sqrt w ribbons snap long hw, le)),
        scaled_mono down.1.composite limit snap.regime
            (omega (arith, side-le sqrt w up.0 snap short hw, le)),
      )

  pub score_confluence-regime :
      (sqrt : Float → Float) (table : Table) (ribbons : Ribbons) (snap : MarketSnapshot)
      → (score_confluence sqrt table ribbons snap).1.regime ≡ snap.regime
  unfolding score_confluence
  score_confluence-regime sqrt table ribbons snap = ground arith

  threshold-ge : (r : Regime) → 130 ≤ threshold_of r
  unfolding threshold_of
  threshold-ge r = ground arith

  -- A score more than twenty points below its threshold is discarded.
  low_score-discard :
      (g : ConfluenceGate) (s : ConfluenceScore)
      → s.composite + 20 < threshold_of s.regime
      → (evaluate g s).1 ≡ discard
  unfolding evaluate decide above_threshold
  low_score-discard g s low = ground arith

  -- Where the parameters of the weights are not negative, three scores of 60 weigh to at most 60,
  -- and 60 times the multiplier of the regime rounds to at most 63, the gate discards the score of
  -- the snapshot, whatever the bars and the history of the gate are.
  pub score_confluence-discard :
      (sqrt : Float → Float) (table : Table) (ribbons : Ribbons) (snap : MarketSnapshot)
      (g : ConfluenceGate)
      → IsTable table
      → weigh (get_normalized_weights table) 60 60 60 ≤ 60
      → round (mul (lit 60 0) (multiplier snap.regime)) ≤ 63
      → (evaluate g (score_confluence sqrt table ribbons snap).1).1 ≡ discard
  score_confluence-discard sqrt table ribbons snap g v sixty scaled =
      low_score-discard g (score_confluence sqrt table ribbons snap).1 (
        omega (
          arith,
          score_confluence-le sqrt table ribbons snap 60 v sixty,
          scaled,
          threshold-ge (score_confluence sqrt table ribbons snap).1.regime,
        ))

  -- How many bars the ribbon of a symbol has seen.
  abbrev pub bars_seen : Ribbons → MarketSnapshot → ℕ
  bars_seen ribbons snap = (get_or (lookup snap.symbol ribbons) new_ribbon).bar_count

  advance_ribbon-bars_seen :
      (ribbons : Ribbons) (snap : MarketSnapshot) (bar : Ohlcv)
      → get_last? snap.m1 ≡ some bar
      → bars_seen (advance_ribbon ribbons snap).0 snap ≡ bars_seen ribbons snap + 1
  unfolding advance_ribbon update_ribbon
  advance_ribbon-bars_seen ribbons snap bar e = ground (
    arith,
    lookup-insert_self snap.symbol
        (update_ribbon (get_or (lookup snap.symbol ribbons) new_ribbon) bar snap.atr_1m).0 ribbons,
  )

  -- Where the snapshot has a last bar, scoring it advances the ribbon of its symbol by two bars.
  pub score_confluence-bars_seen :
      (sqrt : Float → Float) (table : Table) (ribbons : Ribbons) (snap : MarketSnapshot)
      (bar : Ohlcv)
      → get_last? snap.m1 ≡ some bar
      → bars_seen (score_confluence sqrt table ribbons snap).0 snap ≡ bars_seen ribbons snap + 2
  unfolding score_confluence score_side calculate_hlcp
  score_confluence-bars_seen sqrt table ribbons snap bar e = omega (
    arith,
    advance_ribbon-bars_seen ribbons snap bar e,
    advance_ribbon-bars_seen (advance_ribbon ribbons snap).0 snap bar e,
  )
