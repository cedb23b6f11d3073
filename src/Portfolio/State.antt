-- ===== src/Portfolio/State.antt =====
-- portfolio/state.py and portfolio/ledger.py. A position is held by reference: its key in a heap of
-- state machines, which the registry shares.
use ghost_grid.Common.{
  ℕ, String, Bool, false, Option, none, some, List, [], ◌∷◌, length, nat_eq, string_eq, Dict,
  lookup, insert, erase, values, Floats, Float, zero_f, lit, add, sub, mul, abs,
}
use ghost_grid.Config.{Mode, scalp_normal}
use ghost_grid.Positions.Machine.{Machine, calc_pnl}

module _ ⦃F : Floats⦄ where
  abbrev pub Machines : Type 0
  Machines = Dict ℕ Machine

  -- `last_nuclear_ts` holds Unix milliseconds, 0 before the first event.
  pub record PortfolioState : Type 0 where
    pub starting_equity : Float
    pub net_equity : Float
    pub realized_pnl : Float
    pub unrealized_pnl : Float
    pub open_positions : Dict ℕ ℕ
    pub margin_utilisation : Float
    pub last_fill_latency_ms : Float
    pub circuit_breaker : Bool
    pub day_locked : Bool
    pub nuclear_count_today : ℕ
    pub last_nuclear_ts : ℕ
    pub current_mode : Mode
    pub avg_pair_correlation : Float
    pub avg_basket_rsi : Float

  -- The defaults of the dataclass.
  unfoldable pub initial : PortfolioState
  initial = record {
    starting_equity = lit 10000 0;
    net_equity = lit 10000 0;
    realized_pnl = zero_f;
    unrealized_pnl = zero_f;
    open_positions = [];
    margin_utilisation = zero_f;
    last_fill_latency_ms = zero_f;
    circuit_breaker = false;
    day_locked = false;
    nuclear_count_today = 0;
    last_nuclear_ts = 0;
    current_mode = scalp_normal;
    avg_pair_correlation = zero_f;
    avg_basket_rsi = lit 500 1;
  }

  unfoldable pub daily_pnl : PortfolioState → Float
  daily_pnl s = add s.realized_pnl s.unrealized_pnl

  unfoldable pub set_daily_pnl : PortfolioState → Float → PortfolioState
  set_daily_pnl s value = record s { realized_pnl = sub value s.unrealized_pnl }

  unfoldable pub open_position_count : PortfolioState → ℕ
  open_position_count s = length s.open_positions

  basket_risk_from : Machines → Float → List ℕ → Float
  basket_risk_from heap total [] = total
  basket_risk_from heap total (r ∷ refs) =
      basket_risk_from heap
        (elim (lookup r heap) [
          | none ↦ total
          | some m ↦ add total (mul (mul m.lots (abs (sub m.entry m.hard_stop_price))) m.pip_value)
        ])
        refs

  unfoldable pub total_basket_risk : Machines → PortfolioState → Float
  unfolding basket_risk_from
  total_basket_risk heap s = basket_risk_from heap zero_f (values s.open_positions)

  unfoldable pub add_position : PortfolioState → ℕ → Machine → PortfolioState
  add_position s r m = record s { open_positions = insert m.position_id r s.open_positions }

  unfoldable pub remove_position : PortfolioState → ℕ → PortfolioState × Option ℕ
  remove_position s position_id = (
    record s { open_positions = erase position_id s.open_positions },
    lookup position_id s.open_positions,
  )

  pub record FrozenSnapshot : Type 0 where
    pub net_equity : Float
    pub starting_equity : Float
    pub daily_pnl : Float
    pub open_position_count : ℕ
    pub total_basket_risk : Float
    pub margin_utilisation : Float
    pub day_locked : Bool
    pub circuit_breaker : Bool

  unfoldable pub get_frozen_snapshot : Machines → PortfolioState → FrozenSnapshot
  get_frozen_snapshot heap s = record {
    net_equity = s.net_equity;
    starting_equity = s.starting_equity;
    daily_pnl = daily_pnl s;
    open_position_count = open_position_count s;
    total_basket_risk = total_basket_risk heap s;
    margin_utilisation = s.margin_utilisation;
    day_locked = s.day_locked;
    circuit_breaker = s.circuit_breaker;
  }

  -- A price that is missing, or a profit that cannot be computed, leaves the total as it was.
  abbrev pub pnl_at : Option Float → Machine → Float → Float
  pnl_at none m total = total
  pnl_at (some price) m total = elim (calc_pnl m price) [ none ↦ total | some pnl ↦ add total pnl ]

  unfoldable pub unrealized_from : Machines → Dict String Float → Float → List ℕ → Float
  unrealized_from heap prices total [] = total
  unrealized_from heap prices total (r ∷ refs) =
      unrealized_from heap prices
        (elim (lookup r heap) [ none ↦ total | some m ↦ pnl_at (lookup m.symbol prices) m total ])
        refs

  unfoldable pub update_unrealized : Machines → PortfolioState → Dict String Float → PortfolioState
  update_unrealized heap s current_prices = record s {
    unrealized_pnl = unrealized_from heap current_prices zero_f (values s.open_positions);
  }

  unfoldable pub record_close : PortfolioState → Float → PortfolioState
  record_close s realized_pnl = record s { realized_pnl = add s.realized_pnl realized_pnl }

  unfoldable pub reset_daily : PortfolioState → Float → PortfolioState
  reset_daily s current_equity = record s {
    starting_equity = current_equity;
    realized_pnl = zero_f;
    unrealized_pnl = zero_f;
    day_locked = false;
    nuclear_count_today = 0;
  }
