-- ===== src/Positions/Machine.antt =====
-- positions/state_machine.py. A method returns the machine after the call and its outcome. What an
-- exception leaves behind is kept: the highest profit is written before the first call that can raise.
use ghost_grid.Common.{
  ℕ, String, Bool, true, false, Option, none, some, List, [], ◌∷◌, ◌++◌, if◌then◌else◌, Floats,
  Float, ◌≤?◌, ◌<?◌, zero_f, sub, mul, div?, fmax,
}
use ghost_grid.Config.{Direction, long, short, Mode, get_profit_trigger_for_mode}
use ghost_grid.Positions.Models.{
  PositionState, ExitReason, open_unrealized, open_trailing, closed_profit, closed_loss,
  closed_nuclear, trail_hit, hard_stop, weakness_confirmed, cvd_divergence, nuclear, Snapshot,
}
use ghost_grid.Positions.Cvd.{check_cvd_exit}
use ghost_grid.Positions.Weakness.{detect_weakness}
use ghost_grid.Positions.Trail.{TrailManager, arm, update, is_hit}

pub data Strategy : Type 0 where
  hmp hlcp mpp : Strategy

module _ ⦃F : Floats⦄ where
  -- `_log`, without the clock.
  pub data Event : Type 0 where
    trail_armed : Float → Float → Event
    position_closed : ExitReason → Float → Float → Event

  -- `weight_updates` holds the calls made on the weight updater, in their order. It writes a database,
  -- and its calls are taken to return: where one raises, the state is written and the close is not logged.
  pub record Machine : Type 0 where
    pub position_id : ℕ
    pub symbol : String
    pub direction : Direction
    pub entry : Float
    pub hard_stop_price : Float
    pub lots : Float
    pub fill_ts_ms : ℕ
    pub pip_value : Float
    pub pip_size : Float
    pub state : PositionState
    pub max_profit : Float
    pub trail : TrailManager
    pub events : List Event
    pub weight_updates : List (Strategy × Bool)

  -- `__init__`
  unfoldable pub new : ℕ → String → Direction → Float → Float → Float → ℕ → Float → Float → Machine
  new position_id symbol direction entry stop_loss lots fill_ts_ms pip_value pip_size = record {
    position_id = position_id;
    symbol = symbol;
    direction = direction;
    entry = entry;
    hard_stop_price = stop_loss;
    lots = lots;
    fill_ts_ms = fill_ts_ms;
    pip_value = pip_value;
    pip_size = pip_size;
    state = open_unrealized;
    max_profit = zero_f;
    trail = record { direction = direction; symbol = symbol; trail_stop = none };
    events = [];
    weight_updates = [];
  }

  pub data Outcome : Type 0 where
    hold raised : Outcome
    exits : ExitReason → Outcome

  abbrev pub price_diff : Direction → Float → Float → Float
  price_diff long entry price = sub price entry
  price_diff short entry price = sub entry price

  -- none is a pip size of zero.
  unfoldable pub calc_pnl : Machine → Float → Option Float
  calc_pnl m price = elim (div? (price_diff m.direction m.entry price) m.pip_size) [
    | none ↦ none
    | some pips ↦ some (mul (mul pips m.pip_value) m.lots)
  ]

  abbrev pub stop_hit : Direction → Float → Float → Bool
  stop_hit long price stop = price ≤? stop
  stop_hit short price stop = stop ≤? price

  unfoldable pub hard_stop_hit : Machine → Float → Bool
  hard_stop_hit m price = stop_hit m.direction price m.hard_stop_price

  abbrev pub is_nuclear : ExitReason → Bool
  is_nuclear nuclear = true
  is_nuclear _ = false

  -- The state that `_close` writes.
  abbrev pub closed_state : Float → ExitReason → PositionState
  closed_state pnl reason =
      if zero_f <? pnl
      then closed_profit
      else if is_nuclear reason
      then closed_nuclear
      else closed_loss

  -- `_close`
  unfoldable pub close : Machine → ExitReason → Float → Machine × Outcome
  close m reason price = elim (calc_pnl m price) [
    | none ↦ (m, raised)
    | some pnl ↦
        let won = zero_f <? pnl in
        (
          record m {
            state = closed_state pnl reason;
            weight_updates = m.weight_updates ++ ((hmp, won) ∷ (hlcp, won) ∷ (mpp, won) ∷ []);
            events = m.events ++ (position_closed reason price pnl ∷ []);
          },
          exits reason,
        )
  ]

  unfoldable pub force_close : Machine → ExitReason → Float → Machine × Outcome
  force_close = close

  -- Layer 1, in OPEN_UNREALIZED.
  unfoldable pub unrealized_layer :
      Machine → Float → Float → Snapshot → Option Mode → Machine × Outcome
  unrealized_layer m pnl price snap mode =
      if get_profit_trigger_for_mode mode ≤? pnl
      then elim (arm m.trail price snap.atr_1m mode) [
        | none ↦ (m, raised)
        | some (trail, stop) ↦ (
          record m {
            trail = trail;
            state = open_trailing;
            events = m.events ++ (trail_armed stop pnl ∷ []);
          },
          hold,
        )
      ]
      else (m, hold)

  -- Layers 2 and 3, in OPEN_TRAILING.
  unfoldable pub trailing_layers : Machine → Float → Snapshot → Option Mode → Machine × Outcome
  trailing_layers m price snap mode = elim (update m.trail price snap.atr_1m mode) [
    | none ↦ (m, raised)
    | some (trail, _) ↦
        let m' = record m { trail = trail } in
        if is_hit trail price
        then close m' trail_hit price
        else if (detect_weakness snap.m1 m.direction).all_three
        then close m' weakness_confirmed price
        else (m', hold)
  ]

  unfoldable pub by_state :
      PositionState → Machine → Float → Float → Snapshot → Option Mode → Machine × Outcome
  by_state open_unrealized m pnl price snap mode = unrealized_layer m pnl price snap mode
  by_state open_trailing m pnl price snap mode = trailing_layers m price snap mode
  by_state _ m pnl price snap mode = (m, hold)

  -- What follows the update of the highest profit: layer 4, the hard stop, then the layers of the state.
  unfoldable pub layers : Machine → Float → Float → Snapshot → Option Mode → Machine × Outcome
  layers m pnl price snap mode = elim (check_cvd_exit snap m.direction) [
    | none ↦ (m, raised)
    | some true ↦ close m cvd_divergence price
    | some false ↦
        if hard_stop_hit m price
        then close m hard_stop price
        else by_state m.state m pnl price snap mode
  ]

  unfoldable pub on_tick : Machine → Float → Snapshot → Option Mode → Machine × Outcome
  on_tick m price snap mode = elim (calc_pnl m price) [
    | none ↦ (m, raised)
    | some pnl ↦ layers (record m { max_profit = fmax m.max_profit pnl }) pnl price snap mode
  ]
