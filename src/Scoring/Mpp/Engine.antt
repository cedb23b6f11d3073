-- ===== src/Scoring/Mpp/Engine.antt =====
-- scoring/mpp/engine.py.
use Prim.Native.Nat.{min}
use ghost_grid.Common.{
  ℕ, ◌+◌, ◌≤◌, ◌≡◌, Bool, true, false, ◌&&◌, if◌then◌else◌, arith, Floats, Float,
}
use ghost_grid.Config.{Direction, long, short}
use ghost_grid.Scoring.Snapshot.{MarketSnapshot}
use ghost_grid.Scoring.Mpp.Cvd.{CvdSignal, detect_cvd_divergence}
use ghost_grid.Scoring.Mpp.Bias.{compute_session_bias, score_session_bias, score_session_bias-le}
use ghost_grid.Scoring.Mpp.Absorption.{detect_absorption, score_absorption, score_absorption-le}

module _ ⦃F : Floats⦄ where
  pub record MppResult : Type 0 where
    pub score : ℕ
    pub direction : Direction
    pub cvd_pts : ℕ
    pub bias_pts : ℕ
    pub absorption_pts : ℕ

  abbrev pub same_direction : Direction → Direction → Bool
  same_direction long long = true
  same_direction short short = true
  same_direction _ _ = false

  unfoldable pub score_cvd : CvdSignal → Direction → ℕ
  score_cvd cvd direction =
      if cvd.divergence_confirmed && same_direction cvd.direction direction
      then 25
      else if cvd.trend_aligned
      then 12
      else 0

  unfoldable pub calculate_mpp : (Float → Float) → MarketSnapshot → Direction → MppResult
  calculate_mpp sqrt snap direction =
      let cvd_pts = score_cvd (detect_cvd_divergence sqrt snap.cvd_history snap.m1) direction in
      let bias_pts =
        score_session_bias (compute_session_bias snap.m1 snap.vwap snap.mid direction) in
      let abs_pts = score_absorption (detect_absorption snap.m1 direction) in
      record {
        score = min (cvd_pts + bias_pts + abs_pts) 60;
        direction = direction;
        cvd_pts = cvd_pts;
        bias_pts = bias_pts;
        absorption_pts = abs_pts;
      }

  -- The parts stay within the points that the rubric gives them, so the cap of the score never cuts.
  pub record InRubric (r : MppResult) : Type 0 where
    pub cvd : r.cvd_pts ≤ 25
    pub bias : r.bias_pts ≤ 20
    pub absorption : r.absorption_pts ≤ 15
    pub total : r.score ≡ r.cvd_pts + r.bias_pts + r.absorption_pts

  score_cvd-le : (cvd : CvdSignal) (direction : Direction) → score_cvd cvd direction ≤ 25
  unfolding score_cvd
  score_cvd-le cvd direction = ground arith

  -- The three parts of the score are at most 25, 20 and 15, and the score is their sum.
  pub calculate_mpp-InRubric :
      (sqrt : Float → Float) (snap : MarketSnapshot) (direction : Direction)
      → InRubric (calculate_mpp sqrt snap direction)
  unfolding calculate_mpp
  calculate_mpp-InRubric sqrt snap direction = record {
    cvd = score_cvd-le _ direction;
    bias = score_session_bias-le _;
    absorption = score_absorption-le _;
    total = omega (
      arith,
      score_cvd-le (detect_cvd_divergence sqrt snap.cvd_history snap.m1) direction,
      score_session_bias-le (compute_session_bias snap.m1 snap.vwap snap.mid direction),
      score_absorption-le (detect_absorption snap.m1 direction),
    );
  }
