-- ===== src/Tests/Positions.antt =====
-- One long EURUSD position, in each stage of its life.
use ghost_grid.Common.{
  ◌≡◌, ◌↔◌, refl, true, false, none, some, [], ◌∷◌, arith, lit, lookup, string_eq,
}
use ghost_grid.Common.Fixed.{fixed}
use ghost_grid.Config.{
  instruments, get_instrument, get_profit_trigger_for_mode, get_trail_floor_for_mode, long,
  scalp_normal,
}
use ghost_grid.Positions.Models.{
  open_unrealized, open_trailing, closed_profit, hard_stop, cvd_divergence, nuclear, Snapshot,
}
use ghost_grid.Positions.Cvd.{check_cvd_exit}
use ghost_grid.Positions.Weakness.{detect_weakness}
use ghost_grid.Positions.Trail.{TrailManager, compute_trail_distance, arm, update, is_hit}
use ghost_grid.Positions.Ratchet.{Holds, updates}
use ghost_grid.Positions.Machine.{
  Machine, hold, exits, calc_pnl, hard_stop_hit, close, unrealized_layer, trailing_layers, by_state,
  layers, on_tick, force_close,
}
use ghost_grid.Positions.Exits.{
  IsValid, Moves, Reached, Clear, on_tick-stops, on_tick-Moves, on_tick-IsValid, on_tick-ratchet,
}

abbrev quiet : Snapshot
quiet = record {
  symbol = "EURUSD";
  mid = lit 11050 4;
  m1 = [];
  m5 = [];
  cvd = [];
  atr_1m = lit 10 4;
}

abbrev fresh : Machine
fresh = record {
  position_id = 7;
  symbol = "EURUSD";
  direction = long;
  entry = lit 11000 4;
  hard_stop_price = lit 10950 4;
  lots = lit 1 0;
  fill_ts_ms = 0;
  pip_value = lit 10 0;
  pip_size = lit 1 4;
  state = open_unrealized;
  max_profit = lit 0 0;
  trail = record { direction = long; symbol = "EURUSD"; trail_stop = none };
  events = [];
  weight_updates = [];
}

abbrev trailing : Machine
trailing = record fresh {
  state = open_trailing;
  trail = record { direction = long; symbol = "EURUSD"; trail_stop = some (lit 11020 4) };
}

-- Five dollars of profit arm the trail, at half the range below the price.
fresh_arms :
    let (m, outcome) = on_tick fresh (lit 11005 4) quiet (some scalp_normal) in
    (outcome ≡ hold) × (m.state ≡ open_trailing) × (m.trail.trail_stop ≡ some (lit 11000 4))
unfolding on_tick layers by_state unrealized_layer calc_pnl check_cvd_exit hard_stop_hit arm
    compute_trail_distance get_instrument instruments lookup get_profit_trigger_for_mode
    get_trail_floor_for_mode
fresh_arms = (refl, refl, refl)

fresh-stops : (on_tick fresh (lit 10940 4) quiet none).1 ≡ exits hard_stop
unfolding on_tick layers close calc_pnl check_cvd_exit hard_stop_hit
fresh-stops = refl

trailing-holds : (on_tick trailing (lit 11050 4) quiet none).1 ≡ hold
unfolding on_tick layers by_state trailing_layers close calc_pnl check_cvd_exit hard_stop_hit update
    is_hit detect_weakness compute_trail_distance get_instrument instruments lookup
    get_trail_floor_for_mode
trailing-holds = refl

on_tick-ratchet_example :
    Holds long (lit 11020 4) (on_tick trailing (lit 11050 4) quiet none).0.trail
    × (is_hit (on_tick trailing (lit 11050 4) quiet none).0.trail (lit 11050 4) ≡ false)
on_tick-ratchet_example =
    on_tick-ratchet trailing (lit 11050 4) (lit 11020 4) quiet none refl refl trailing-holds

trailing-gain : calc_pnl trailing (lit 11050 4) ≡ some (lit 500 0)
unfolding calc_pnl
trailing-gain = refl

on_tick-stops_example :
    let outcome = (on_tick trailing (lit 11050 4) quiet none).1 in
    ((outcome ≡ exits cvd_divergence) ↔ (check_cvd_exit quiet long ≡ some true))
    × ((outcome ≡ exits hard_stop) ↔ (
        (check_cvd_exit quiet long ≡ some false)
        × Reached long (lit 11050 4) trailing.hard_stop_price))
    × (outcome ≡ hold
        → (check_cvd_exit quiet long ≡ some false)
          × Clear long (lit 11050 4) trailing.hard_stop_price)
on_tick-stops_example = on_tick-stops trailing (lit 11050 4) (lit 500 0) quiet none trailing-gain

on_tick-Moves_example :
    Moves trailing (lit 11010 4) (on_tick trailing (lit 11010 4) quiet none)
    × Moves trailing (lit 11010 4) (force_close trailing nuclear (lit 11010 4))
on_tick-Moves_example = on_tick-Moves trailing (lit 11010 4) quiet none nuclear

trailing-pnl : calc_pnl trailing (lit 11010 4) ≡ some (lit 100 0)
unfolding calc_pnl
trailing-pnl = refl

on_tick-IsValid_example : IsValid (on_tick trailing (lit 11010 4) quiet none).0
on_tick-IsValid_example = on_tick-IsValid trailing (lit 11010 4) quiet none (ground arith)

abbrev won : Machine
won = record fresh { state = closed_profit }

won-pnl : calc_pnl won (lit 10940 4) ≡ some (fixed.sub (lit 0 0) (lit 600 0))
unfolding calc_pnl
won-pnl = refl

won-quiet : check_cvd_exit quiet long ≡ some false
unfolding check_cvd_exit
won-quiet = refl

won-hit : hard_stop_hit won (lit 10940 4) ≡ true
unfolding hard_stop_hit
won-hit = refl

abbrev armed : TrailManager
armed = record { direction = long; symbol = "EURUSD"; trail_stop = some (lit 11020 4) }

abbrev moved : TrailManager
moved = record armed { trail_stop = some (lit 11055 4) }

-- The price rises and falls back: the stop follows it up only.
armed-updates :
    updates armed ((lit 11060 4, lit 10 4, none) ∷ (lit 11030 4, lit 10 4, none) ∷ []) ≡ some moved
unfolding updates update compute_trail_distance get_instrument instruments lookup
    get_trail_floor_for_mode
armed-updates = refl
