-- ===== src/Scoring/Hmp/Engine.antt =====
-- scoring/hmp/engine.py.
use Prim.Native.Nat.{min}
use ghost_grid.Common.{
  ℕ, ◌+◌, ◌-◌, ◌≤◌, ◌≡◌, not, ◌&&◌, Option, none, some, if◌then◌else◌, arith, Floats, ◌<?◌, lit,
}
use ghost_grid.Config.{Direction}
use ghost_grid.Scoring.Snapshot.{MarketSnapshot}
use ghost_grid.Scoring.Hmp.Bos.{BosResult, detect_bos}
use ghost_grid.Scoring.Hmp.Choch.{high_quality, medium_quality, ChochResult, detect_choch}
use ghost_grid.Scoring.Hmp.Fvg.{FvgResult, find_nearest_fvg}
use ghost_grid.Scoring.Hmp.OrderBlock.{OrderBlockResult, find_active_ob}

module _ ⦃F : Floats⦄ where
  pub record HmpResult : Type 0 where
    pub score : ℕ
    pub direction : Direction
    pub bos : BosResult
    pub choch : ChochResult
    pub fvg : Option FvgResult
    pub order_block : Option OrderBlockResult
    pub bos_pts : ℕ
    pub choch_pts : ℕ
    pub fvg_pts : ℕ
    pub ob_pts : ℕ

  unfoldable pub score_bos : BosResult → ℕ
  score_bos bos =
      let base : ℕ = if lit 70 2 <? bos.momentum then 20 else 10 in
      if bos.confirmed then (if bos.mtf_aligned then base else base - 8) else 0

  unfoldable pub score_choch : ChochResult → ℕ
  score_choch choch = elim choch.quality [ high_quality ↦ 15 | medium_quality ↦ 8 | _ ↦ 0 ]

  unfoldable pub score_fvg : FvgResult → ℕ
  score_fvg fvg =
      if fvg.found && fvg.unfilled
      then (if fvg.distance_pct <? lit 5 1
          then 15
          else if fvg.distance_pct <? lit 15 1
          then 7
          else 0)
      else 0

  unfoldable pub score_ob : OrderBlockResult → ℕ
  score_ob ob =
      if ob.found then (if not ob.stale && lit 6 1 <? ob.imbalance_ratio then 10 else 4) else 0

  unfoldable pub calculate_hmp : MarketSnapshot → Direction → HmpResult
  calculate_hmp snap direction =
      let bos = detect_bos snap.m5 snap.m3 direction snap.atr_5m in
      let choch = detect_choch snap.m3 snap.m5 direction in
      let fvg = find_nearest_fvg snap.m3 snap.mid snap.atr_5m direction in
      let ob = find_active_ob snap.m5 snap.mid direction in
      record {
        score = min 60 (score_bos bos + score_choch choch + score_fvg fvg + score_ob ob);
        direction = direction;
        bos = bos;
        choch = choch;
        fvg = if fvg.found && fvg.unfilled then some fvg else none;
        order_block = if ob.found then some ob else none;
        bos_pts = score_bos bos;
        choch_pts = score_choch choch;
        fvg_pts = score_fvg fvg;
        ob_pts = score_ob ob;
      }

  -- The parts stay within the points that the rubric gives them, so the cap of the score never cuts.
  pub record InRubric (r : HmpResult) : Type 0 where
    pub bos : r.bos_pts ≤ 20
    pub choch : r.choch_pts ≤ 15
    pub fvg : r.fvg_pts ≤ 15
    pub order_block : r.ob_pts ≤ 10
    pub total : r.score ≡ r.bos_pts + r.choch_pts + r.fvg_pts + r.ob_pts

  score_bos-le : (bos : BosResult) → score_bos bos ≤ 20
  unfolding score_bos
  score_bos-le bos = ground arith

  score_choch-le : (choch : ChochResult) → score_choch choch ≤ 15
  unfolding score_choch
  score_choch-le choch = ground arith

  score_fvg-le : (fvg : FvgResult) → score_fvg fvg ≤ 15
  unfolding score_fvg
  score_fvg-le fvg = ground arith

  score_ob-le : (ob : OrderBlockResult) → score_ob ob ≤ 10
  unfolding score_ob
  score_ob-le ob = ground arith

  -- The four parts of the score are at most 20, 15, 15 and 10, and the score is their sum.
  pub calculate_hmp-InRubric :
      (snap : MarketSnapshot) (direction : Direction) → InRubric (calculate_hmp snap direction)
  unfolding calculate_hmp
  calculate_hmp-InRubric snap direction = record {
    bos = score_bos-le _;
    choch = score_choch-le _;
    fvg = score_fvg-le _;
    order_block = score_ob-le _;
    total = omega (
      arith,
      score_bos-le (detect_bos snap.m5 snap.m3 direction snap.atr_5m),
      score_choch-le (detect_choch snap.m3 snap.m5 direction),
      score_fvg-le (find_nearest_fvg snap.m3 snap.mid snap.atr_5m direction),
      score_ob-le (find_active_ob snap.m5 snap.mid direction),
    );
  }
