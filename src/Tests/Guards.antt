-- ===== src/Tests/Guards.antt =====
-- The circuit breaker, the governor, the watchdog and the sizing, around one losing portfolio.
use ghost_grid.Common.{
  ◌≡◌, ◌≢◌, ◌⊎◌, ◌↔◌, refl, ◌+◌, true, false, none, some, [], ◌∷◌, arith, lit, lookup,
  if◌then◌else◌, leb,
}
use ghost_grid.Common.Fixed.{fixed}
use ghost_grid.Config.{instruments, get_instrument, long, trend, scalp_normal}
use ghost_grid.Portfolio.State.{PortfolioState, FrozenSnapshot, daily_pnl}
use ghost_grid.Nuclear.Triggers.{
  loss_protection, triggers, first_firing, evaluate_triggers, Decides, evaluate_triggers-Decides,
  trigger_combined_profit, trigger_daily_gain_target, trigger_loss_protection,
  trigger_daily_loss_limit, trigger_market_exhaustion, trigger_latency_anomaly,
  trigger_correlation_spike,
}
use ghost_grid.Nuclear.Controller.{
  CloseWorld, returned, failed, cooldown_duration_ms, NuclearEvent, NuclearCooldown, poll_and_check,
  apply_cooldown, execute_nuclear_close,
}
use ghost_grid.Nuclear.Cooldown.{
  Guarded, here, polled, written, SameGuard, Unguarded, untouched, polled_bare, IsOff, fire-Guarded,
  Unguarded-IsOff,
}
use ghost_grid.Risk.Sizer.{calculate_lot_size, InBounds, calculate_lot_size-InBounds}
use ghost_grid.Risk.Validator.{
  ProposedOrder, PortfolioSnapshot, Passes, validate, validate_order, first_failure, checks,
  rr_ratio, pip_risk, day_locked_reason, daily_loss, validate-approved, validate-Decides,
}
use ghost_grid.Risk.Validator
use ghost_grid.Risk.Watchdog.{WatchdogThread, emergency_nuclear_write, poll}

abbrev start : PortfolioState
start = record {
  starting_equity = lit 10000 0;
  net_equity = lit 10000 0;
  realized_pnl = lit 0 0;
  unrealized_pnl = lit 0 0;
  open_positions = (7, 0) ∷ (8, 1) ∷ [];
  margin_utilisation = lit 0 0;
  last_fill_latency_ms = lit 0 0;
  circuit_breaker = false;
  day_locked = false;
  nuclear_count_today = 0;
  last_nuclear_ts = 0;
  current_mode = scalp_normal;
  avg_pair_correlation = lit 0 0;
  avg_basket_rsi = lit 50 0;
}

-- Seven dollars are lost on the open positions.
abbrev losing : PortfolioState
losing = record start { unrealized_pnl = fixed.sub (lit 0 0) (lit 7 0) }

-- The first close is confirmed, the second one fails.
abbrev half_closed : CloseWorld
half_closed = record {
  has_close = true;
  timed_out = false;
  result = λ pid. if leb pid 7 then returned true else failed;
}

losing-fires : evaluate_triggers losing ≡ some loss_protection
unfolding evaluate_triggers first_firing triggers trigger_combined_profit trigger_daily_gain_target
    trigger_loss_protection trigger_daily_loss_limit trigger_market_exhaustion
    trigger_latency_anomaly trigger_correlation_spike
losing-fires = refl

start-quiet : evaluate_triggers start ≡ none
unfolding evaluate_triggers first_firing triggers trigger_combined_profit trigger_daily_gain_target
    trigger_loss_protection trigger_daily_loss_limit trigger_market_exhaustion
    trigger_latency_anomaly trigger_correlation_spike
start-quiet = refl

evaluate_triggers-Decides_example :
    ((losing.open_positions ≡ []) × (evaluate_triggers losing ≡ none))
    ⊎ ((losing.open_positions ≢ []) × Decides triggers losing (evaluate_triggers losing))
evaluate_triggers-Decides_example = evaluate_triggers-Decides losing

abbrev fired : PortfolioState
fired = record losing {
  circuit_breaker = true;
  nuclear_count_today = 1;
  last_nuclear_ts = 1700000000000;
}

losing-fired : (poll_and_check half_closed losing 1700000000000).0 ≡ fired
unfolding poll_and_check apply_cooldown execute_nuclear_close evaluate_triggers first_firing
    triggers trigger_combined_profit trigger_daily_gain_target trigger_loss_protection
    trigger_daily_loss_limit trigger_market_exhaustion trigger_latency_anomaly
    trigger_correlation_spike
losing-fired = refl

-- Another task closes both positions, and a poll ten minutes later finds nothing to do.
abbrev closed_out : PortfolioState
closed_out = record fired { open_positions = []; unrealized_pnl = lit 0 0 }

abbrev later : PortfolioState
later = (poll_and_check half_closed closed_out 1700000600000).0

to_closed : SameGuard (poll_and_check half_closed losing 1700000000000).0 closed_out
to_closed =
    rw losing-fired
      (record { same_ts = refl; same_count = refl; same_breaker = refl; same_lock = refl })

path :
    Guarded 1700000000000
      (1700000000000 + cooldown_duration_ms)
      (poll_and_check half_closed losing 1700000000000).0
      later
path = polled (written here to_closed) half_closed 1700000600000 (omega arith) (omega arith) refl

fire-Guarded_example : later.circuit_breaker ≡ true
fire-Guarded_example =
    fire-Guarded half_closed losing later loss_protection 1700000000000 refl losing-fires path

-- A commander as the source has it.
abbrev bare : CloseWorld
bare = record { has_close = false; timed_out = false; result = λ _. failed }

-- The losing portfolio after a second poll; the first one wrote nothing.
abbrev polled_twice : PortfolioState
polled_twice = (poll_and_check bare losing 1700000600000).0

two_polls : Unguarded losing polled_twice
unfolding poll_and_check execute_nuclear_close evaluate_triggers first_firing triggers
    trigger_combined_profit trigger_daily_gain_target trigger_loss_protection
    trigger_daily_loss_limit trigger_market_exhaustion trigger_latency_anomaly
    trigger_correlation_spike
two_polls =
    polled_bare (polled_bare untouched bare 1700000000000 refl (omega arith) refl) bare
      1700000600000 refl (omega arith) refl

Unguarded-IsOff_example : IsOff losing polled_twice
Unguarded-IsOff_example = Unguarded-IsOff refl two_polls

abbrev locked : PortfolioState
locked = record start { day_locked = true }

-- The operator has paused the trading.
abbrev paused : PortfolioState
paused = record start { circuit_breaker = true }

paused-quiet : evaluate_triggers paused ≡ none
unfolding evaluate_triggers first_firing triggers trigger_combined_profit trigger_daily_gain_target
    trigger_loss_protection trigger_daily_loss_limit trigger_market_exhaustion
    trigger_latency_anomaly trigger_correlation_spike
paused-quiet = refl

abbrev event : NuclearEvent
event = record {
  reason = loss_protection;
  timestamp_ms = 1700000000000;
  positions_closed = 2;
  portfolio_pnl = fixed.sub (lit 0 0) (lit 7 0);
  equity_at_fire = lit 10000 0;
}

abbrev cooling : NuclearCooldown
cooling = record {
  active = true;
  remaining_ms = 900000;
  daily_nuclear_count = 1;
  day_locked = false;
}

losing-event : (poll_and_check half_closed losing 1700000000000).1 ≡ some (event, cooling)
unfolding poll_and_check apply_cooldown execute_nuclear_close daily_pnl evaluate_triggers
    first_firing triggers trigger_combined_profit trigger_daily_gain_target trigger_loss_protection
    trigger_daily_loss_limit trigger_market_exhaustion trigger_latency_anomaly
    trigger_correlation_spike
losing-event = refl

abbrev order : ProposedOrder
order = record {
  symbol = "EURUSD";
  direction = long;
  entry_price = lit 11000 4;
  stop_loss = lit 10980 4;
  atr_5m = lit 40 4;
  spread_pct = lit 1 4;
  hc_score = 150;
  regime = trend;
  session = "LONDON";
}

abbrev calm : PortfolioSnapshot
calm = record {
  net_equity = lit 10000 0;
  starting_equity = lit 10000 0;
  daily_pnl = lit 0 0;
  open_position_count = 1;
  total_basket_risk = lit 100 0;
  margin_utilisation = lit 10 2;
  day_locked = false;
}

-- The example of the sizing's documentation: half a lot.
order-lots : calculate_lot_size "EURUSD" (lit 10000 0) (lit 11000 4) (lit 10980 4) ≡ some (lit 50 2)
unfolding calculate_lot_size get_instrument instruments lookup
order-lots = refl

calculate_lot_size-InBounds_example :
    InBounds (calculate_lot_size "EURUSD" (lit 10000 0) (lit 11000 4) (lit 10980 4))
calculate_lot_size-InBounds_example =
    calculate_lot_size-InBounds "EURUSD" (lit 10000 0) (lit 11000 4) (lit 10980 4) refl

validate-approved_example :
    let lots = calculate_lot_size "EURUSD" (lit 10000 0) (lit 11000 4) (lit 10980 4) in
    (((validate order calm).approved ≡ true) ↔ (Passes order calm × (lots ≢ none)))
    × ((validate order calm).lot_size ≡ (if (validate order calm).approved then lots else none))
validate-approved_example = validate-approved order calm

calm-approves : (validate order calm).lot_size ≡ some (lit 50 2)
unfolding validate validate_order first_failure checks rr_ratio pip_risk calculate_lot_size
    get_instrument instruments lookup
calm-approves = refl

-- Five per cent are lost.
abbrev breached : PortfolioSnapshot
breached = record calm { daily_pnl = fixed.sub (lit 0 0) (lit 500 0) }

breached-rejects : (validate order breached).reason ≡ some daily_loss
unfolding validate validate_order first_failure checks
breached-rejects = refl

validate-Decides_example : Validator.Decides (checks order breached) (some daily_loss)
validate-Decides_example = validate-Decides order breached daily_loss breached-rejects (λ e. cc)

abbrev watchdog : WatchdogThread
watchdog = record {
  get_snap = some (record {
    net_equity = lit 10000 0;
    starting_equity = lit 10000 0;
    daily_pnl = fixed.sub (lit 0 0) (lit 500 0);
    open_position_count = 1;
    total_basket_risk = lit 100 0;
    margin_utilisation = lit 10 2;
    day_locked = false;
    circuit_breaker = false;
  });
  has_halt_handler = true;
}

abbrev watched : FrozenSnapshot
watched = record {
  net_equity = lit 10000 0;
  starting_equity = lit 10000 0;
  daily_pnl = fixed.sub (lit 0 0) (lit 500 0);
  open_position_count = 1;
  total_basket_risk = lit 100 0;
  margin_utilisation = lit 10 2;
  day_locked = false;
  circuit_breaker = false;
}

watchdog-fires : poll watchdog ≡ emergency_nuclear_write ∷ []
unfolding poll
watchdog-fires = refl
