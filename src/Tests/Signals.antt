-- ===== src/Tests/Signals.antt =====
-- Two symbols at the gate.
use ghost_grid.Common.{◌≡◌, ◌↔◌, refl, ◌+◌, ◌≤◌, ◌<◌, [], ◌∷◌, lookup, insert, erase, string_eq}
use ghost_grid.Config.{long, trend}
use ghost_grid.Scoring.Gate.{
  ConfluenceScore, full_auto, full_auto_strong, evaluate, decide, count_cycle, count_of,
  above_threshold, threshold_of, empty_gate,
}
use ghost_grid.Scoring.History.{scored, after, step, streak, evaluate-streak}

abbrev euro : ConfluenceScore
euro = record {
  symbol = "EURUSD";
  hmp = 50;
  hlcp = 50;
  mpp = 45;
  composite = 145;
  direction = long;
  regime = trend;
  session = "LONDON";
  timestamp_ms = 0;
}

abbrev gold : ConfluenceScore
gold = record euro { symbol = "XAUUSD"; composite = 90 }

-- A score below the threshold of another symbol does not break the streak.
second_cycle_fires : (evaluate (after (scored gold ∷ scored euro ∷ [])) euro).1 ≡ full_auto
unfolding evaluate decide count_cycle count_of above_threshold threshold_of empty_gate after step
    lookup insert erase
second_cycle_fires = refl

evaluate-streak_example :
    let is = scored gold ∷ scored euro ∷ [] in
    let d = (evaluate (after is) euro).1 in
    ((d ≡ full_auto_strong) ↔ ((1 ≤ streak "EURUSD" is) × (threshold_of trend + 20 ≤ 145)))
    × ((d ≡ full_auto)
        ↔ ((1 ≤ streak "EURUSD" is) × (threshold_of trend ≤ 145) × (145 < threshold_of trend + 20)))
evaluate-streak_example = evaluate-streak (scored gold ∷ scored euro ∷ []) euro
