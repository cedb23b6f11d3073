-- ===== src/Scoring/Hlcp/Engine.antt =====
-- scoring/hlcp/engine.py. The ribbons of the symbols are a dict of the module: state that is passed along.
use Prim.Native.Nat.{min}
use ghost_grid.Common.{
  ℕ, ◌+◌, ◌≤◌, ◌≡◌, refl, String, Option, none, some, get_last?, arith, string_eq, Dict, lookup,
  insert, get_or, Floats,
}
use ghost_grid.Config.{Direction}
use ghost_grid.Scoring.Snapshot.{MarketSnapshot}
use ghost_grid.Scoring.Hlcp.Ribbon.{
  EmaRibbonCalculator, EmaState, new_ribbon, update_ribbon, score_trend_alignment,
  score_trend_alignment-le,
}
use ghost_grid.Scoring.Hlcp.Liquidity.{map_liquidity, score_liquidity, score_liquidity-le}
use ghost_grid.Scoring.Hlcp.Decay.{
  detect_momentum_decay, score_momentum_decay, score_momentum_decay-le, score_killzone,
  score_killzone-le,
}

module _ ⦃F : Floats⦄ where
  pub record HlcpResult : Type 0 where
    pub score : ℕ
    pub direction : Direction
    pub trend_pts : ℕ
    pub liquidity_pts : ℕ
    pub momentum_pts : ℕ
    pub killzone_pts : ℕ

  -- `_ribbon_calculators`
  abbrev pub Ribbons : Type 0
  Ribbons = Dict String EmaRibbonCalculator

  -- `_get_ribbon` and the update with the last bar.
  unfoldable pub advance_ribbon : Ribbons → MarketSnapshot → Ribbons × Option EmaState
  advance_ribbon ribbons snap =
      let calc = get_or (lookup snap.symbol ribbons) new_ribbon in
      elim (get_last? snap.m1) [
        | none ↦ (insert snap.symbol calc ribbons, none)
        | some bar ↦
            let (calc', state) = update_ribbon calc bar snap.atr_1m in
            (insert snap.symbol calc' ribbons, state)
      ]

  abbrev trend_points : Option EmaState → Direction → ℕ
  trend_points none direction = 0
  trend_points (some s) direction = score_trend_alignment s direction

  unfoldable pub calculate_hlcp : Ribbons → MarketSnapshot → Direction → Ribbons × HlcpResult
  calculate_hlcp ribbons snap direction =
      let (ribbons', ribbon) = advance_ribbon ribbons snap in
      let trend_pts = trend_points ribbon direction in
      let liq_pts = score_liquidity (map_liquidity snap.m5 snap.mid snap.atr_5m direction) in
      let decay_pts = score_momentum_decay (detect_momentum_decay snap.m1 direction) in
      let kz_pts = score_killzone snap.session in
      (
        ribbons',
        record {
          score = min (trend_pts + liq_pts + decay_pts + kz_pts) 60;
          direction = direction;
          trend_pts = trend_pts;
          liquidity_pts = liq_pts;
          momentum_pts = decay_pts;
          killzone_pts = kz_pts;
        },
      )

  -- The parts stay within their points; the sum of these is 65, so the score is cut at 60.
  pub record InRubric (r : HlcpResult) : Type 0 where
    pub trend : r.trend_pts ≤ 25
    pub liquidity : r.liquidity_pts ≤ 20
    pub momentum : r.momentum_pts ≤ 15
    pub killzone : r.killzone_pts ≤ 5
    pub total : r.score ≡ min (r.trend_pts + r.liquidity_pts + r.momentum_pts + r.killzone_pts) 60

  trend_points-le :
      (state : Option EmaState) (direction : Direction) → trend_points state direction ≤ 25
  trend_points-le none direction = omega arith
  trend_points-le (some s) direction = score_trend_alignment-le s direction

  -- The four parts of the score are at most 25, 20, 15 and 5, and the score is their sum or 60,
  -- whichever is less.
  pub calculate_hlcp-InRubric :
      (ribbons : Ribbons) (snap : MarketSnapshot) (direction : Direction)
      → InRubric (calculate_hlcp ribbons snap direction).1
  unfolding calculate_hlcp
  calculate_hlcp-InRubric ribbons snap direction = record {
    trend = trend_points-le _ direction;
    liquidity = score_liquidity-le _;
    momentum = score_momentum_decay-le _;
    killzone = score_killzone-le snap.session;
    total = refl;
  }
