-- ===== src/Tests/Choices.antt =====
-- The exit engine and the paper commander at concrete inputs.
use ghost_grid.Common.{
  ◌≡◌, refl, true, false, Option, none, some, List, [], ◌∷◌, lit, nat_eq, contains, Float,
}
use ghost_grid.Common.Fixed.{fixed}
use ghost_grid.Config.{long}
use ghost_grid.Execution.Paper.{
  PaperFill, PaperCall, opens, closes, new_paper, paper_calls, open_paper, close_paper,
  open_paper-fresh,
}
use ghost_grid.Positions.Models.{Snapshot, open_unrealized, open_trailing}
use ghost_grid.Positions.Trail.{TrailManager, is_armed, update}
use ghost_grid.Positions.Machine.{Machine, new, calc_pnl, on_tick}
use ghost_grid.Positions.Engine.{engine_on, reason_of_outcome, evaluate_exit-on_tick}

abbrev euro : Machine
euro = new 7 "EURUSD" long (lit 11000 4) (lit 10950 4) (lit 1 0) 0 (lit 10 0) (lit 1 4)

abbrev rise : Snapshot
rise = record {
  symbol = "EURUSD";
  mid = lit 11010 4;
  m1 = [];
  m5 = [];
  cvd = [];
  atr_1m = lit 10 4;
}

rise-pnl : calc_pnl euro (lit 11010 4) ≡ some (lit 100 0)
unfolding calc_pnl new
rise-pnl = refl

evaluate_exit-on_tick_example :
    (euro.state ≡ open_unrealized
      → is_armed euro.trail ≡ false
      → reason_of_outcome (on_tick euro (lit 11010 4) rise none).1
        ≡ engine_on euro rise (lit 100 0) euro.trail)
    × ((trail : TrailManager) (stop : Option Float)
        → euro.state ≡ open_trailing
        → update euro.trail (lit 11010 4) (lit 10 4) none ≡ some (trail, stop)
        → is_armed trail ≡ true
        → reason_of_outcome (on_tick euro (lit 11010 4) rise none).1
          ≡ engine_on euro rise (lit 100 0) trail)
evaluate_exit-on_tick_example = evaluate_exit-on_tick euro rise none (lit 100 0) rise-pnl

abbrev paper_history : List PaperCall
paper_history = opens true "EURUSD" (lit 11000 4) (lit 0 0) ∷ closes 1000 ∷ []

open_paper-fresh_example :
    let p = paper_calls new_paper paper_history in
    let (q, fill) = open_paper p true "USDJPY" (lit 150 0) (lit 0 0) in
    (f : PaperFill) × (fill ≡ some f)
    × (contains f.position_id p.positions ≡ false)
    × ((close_paper q f.position_id).1 ≡ true)
    × ((close_paper (close_paper q f.position_id).0 f.position_id).1 ≡ false)
open_paper-fresh_example = open_paper-fresh paper_history "USDJPY" (lit 150 0) (lit 0 0)
