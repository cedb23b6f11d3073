-- ===== src/Tests/Scores.antt =====
-- The scoring of a snapshot at concrete inputs.
use ghost_grid.Common.{
  ℕ, suc, get_elem?, ◌≡◌, refl, true, false, some, [], ◌∷◌, List, Float, lit, get_last?, arith,
  lookup, Bool, ◌≤?◌, but_last_n,
}
use ghost_grid.Common.Fixed.{fixed}
use ghost_grid.Config.{long, breakout}
use ghost_grid.Data.Bars.{Ohlcv, from_end, m5}
use ghost_grid.Positions.Machine.{Strategy, hmp, mpp}
use ghost_grid.Scoring.Snapshot.{min_by, MarketSnapshot}
use ghost_grid.Scoring.Gate.{empty_gate, evaluate, discard}
use ghost_grid.Scoring.Weights.{Table, empty-IsTable, get_normalized_weights}
use ghost_grid.Scoring.Hmp.Fvg.{find_nearest_fvg, check_fvg, gaps, nearest}
use ghost_grid.Scoring.Hmp.Bos.{detect_bos, swing_of, beyond, check_m3_bos}
use ghost_grid.Scoring.Hmp.Swing.{
  SwingPoint, get_last_swing, detect_swings, swings_in, swing_at, swing_of_candidate, is_swing,
}
use ghost_grid.Scoring.Hmp.Detected.{IsSwing, detect_bos-breaks}
use ghost_grid.Scoring.Hmp.Gaps.{IsSeen, OpenGap, away, find_nearest_fvg-nearest}
use ghost_grid.Scoring.Fusion.{weigh, score_confluence}
use ghost_grid.Scoring.Reach.{score_confluence-discard}

-- A bar between two prices in points of 1/10000, with its close.
abbrev bar : ℕ → ℕ → ℕ → Ohlcv
bar low high close = record {
  symbol = "EURUSD";
  timeframe = m5;
  open_price = lit low 4;
  high = lit high 4;
  low = lit low 4;
  close = lit close 4;
  volume = 100;
  timestamp_ms = 0;
}

-- Three bars with a gap above the first.
abbrev gapped : List Ohlcv
gapped = bar 11000 11010 11010 ∷ bar 11010 11030 11030 ∷ bar 11020 11040 11040 ∷ []

-- A high of 1.1050 among lower bars, and a last close above it.
abbrev broken_out : List Ohlcv
broken_out =
    bar 11000 11010 11005
    ∷ bar 11000 11010 11005
    ∷ bar 11000 11020 11005
    ∷ bar 11000 11050 11005
    ∷ bar 11000 11020 11005
    ∷ bar 11000 11010 11005
    ∷ bar 11000 11010 11005
    ∷ bar 11000 11010 11005
    ∷ bar 11000 11010 11005
    ∷ bar 11000 11060 11055
    ∷ []

abbrev snap : MarketSnapshot
snap = record {
  symbol = "EURUSD";
  mid = lit 11045 4;
  timestamp_ms = 0;
  m1 = broken_out;
  m3 = gapped;
  m5 = broken_out;
  cvd_history = [];
  vwap = lit 11000 4;
  atr_1m = lit 10 4;
  atr_5m = lit 10 4;
  session = "LONDON";
  regime = breakout;
}

abbrev no_rows : Table
no_rows = []

abbrev identity : Float → Float
identity x = x

score_confluence-discard_example :
    (evaluate empty_gate (score_confluence identity no_rows [] snap).1).1 ≡ discard
unfolding weigh get_normalized_weights lookup
score_confluence-discard_example =
    score_confluence-discard identity no_rows [] snap empty_gate empty-IsTable (omega arith)
      (omega arith)

gap-found : (find_nearest_fvg gapped (lit 11045 4) (lit 10 4) long).found ≡ true
unfolding find_nearest_fvg nearest gaps check_fvg min_by
gap-found = refl

find_nearest_fvg-nearest_example :
    let f = find_nearest_fvg gapped (lit 11045 4) (lit 10 4) long in
    let bars = from_end 20 gapped in
    IsSeen bars (lit 11045 4) (lit 10 4) long f
    × ((i : ℕ) (c0 c2 : Ohlcv)
        → get_elem? bars i ≡ some c0
        → get_elem? bars (suc (suc i)) ≡ some c2
        → OpenGap long (lit 11045 4) c0 c2
        → (f.distance_pct ≤? away long (lit 11045 4) (lit 10 4) c0) ≡ true)
find_nearest_fvg-nearest_example =
    find_nearest_fvg-nearest gapped (lit 11045 4) (lit 10 4) long gap-found

bos-found : (detect_bos broken_out gapped long (lit 10 4)).confirmed ≡ true
unfolding detect_bos get_last_swing detect_swings swings_in swing_at swing_of_candidate is_swing
    check_m3_bos
bos-found = refl

detect_bos-breaks_example :
    (current : Ohlcv) × (p : SwingPoint) × (get_last? broken_out ≡ some current)
    × IsSwing (swing_of long) (from_end 30 (but_last_n 1 broken_out)) 2 p
    × (beyond long current.close p.price ≡ true)
detect_bos-breaks_example = detect_bos-breaks broken_out gapped long (lit 10 4) bos-found

abbrev wins_and_losses : List (Strategy × Bool)
wins_and_losses = (hmp, true) ∷ (mpp, false) ∷ (hmp, true) ∷ []
