-- ===== src/Scoring/Fusion.antt =====
-- scoring/fusion.py. The weights are those of the table when the score is made; the ribbons of the HLCP
-- engine are passed along.
use Prim.Native.Nat.{min}
use ghost_grid.Common.{ℕ, if◌then◌else◌, leb, Floats, Float, lit, add, mul, round}
use ghost_grid.Config.{
  Direction, long, short, Regime, trend, chop, breakout, reversal, other_regime,
}
use ghost_grid.Scoring.Snapshot.{MarketSnapshot}
use ghost_grid.Scoring.Gate.{ConfluenceScore}
use ghost_grid.Scoring.Weights.{Table, Weights, get_normalized_weights}
use ghost_grid.Scoring.Hmp.Engine.{calculate_hmp}
use ghost_grid.Scoring.Hlcp.Engine.{Ribbons, calculate_hlcp}
use ghost_grid.Scoring.Mpp.Engine.{calculate_mpp}

module _ ⦃F : Floats⦄ where
  -- `REGIME_MULTIPLIERS.get(regime, 1.0)`
  abbrev pub multiplier : Regime → Float
  multiplier trend = lit 105 2
  multiplier chop = lit 85 2
  multiplier breakout = lit 100 2
  multiplier reversal = lit 90 2
  multiplier (other_regime _) = lit 10 1

  -- The sum of the weighted scores, rounded.
  unfoldable pub weigh : Weights → ℕ → ℕ → ℕ → ℕ
  weigh w hmp hlcp mpp = round (
      add (add (mul w.hmp_weight (lit hmp 0)) (mul w.hlcp_weight (lit hlcp 0)))
        (mul w.mpp_weight (lit mpp 0)))

  -- The three scores of a direction and their composite.
  pub record Side : Type 0 where
    pub hmp : ℕ
    pub hlcp : ℕ
    pub mpp : ℕ
    pub composite : ℕ

  unfoldable pub score_side :
      (Float → Float) → Weights → Ribbons → MarketSnapshot → Direction → Ribbons × Side
  score_side sqrt w ribbons snap direction =
      let hmp = (calculate_hmp snap direction).score in
      let (ribbons', hlcp) = calculate_hlcp ribbons snap direction in
      let mpp = (calculate_mpp sqrt snap direction).score in
      (
        ribbons',
        record {
          hmp = hmp;
          hlcp = hlcp.score;
          mpp = mpp;
          composite = min (weigh w hmp hlcp.score mpp) 180;
        },
      )

  abbrev score_of : MarketSnapshot → Side → Direction → ConfluenceScore
  score_of snap s direction = record {
    symbol = snap.symbol;
    hmp = s.hmp;
    hlcp = s.hlcp;
    mpp = s.mpp;
    composite = round (mul (lit s.composite 0) (multiplier snap.regime));
    direction = direction;
    regime = snap.regime;
    session = snap.session;
    timestamp_ms = snap.timestamp_ms;
  }

  unfoldable pub score_confluence :
      (Float → Float) → Table → Ribbons → MarketSnapshot → Ribbons × ConfluenceScore
  score_confluence sqrt table ribbons snap =
      let w = get_normalized_weights table in
      let (ribbons1, up) = score_side sqrt w ribbons snap long in
      let (ribbons2, down) = score_side sqrt w ribbons1 snap short in
      (
        ribbons2,
        if leb down.composite up.composite then score_of snap up long else score_of snap down short,
      )
