-- ===== src/Nuclear/Controller.antt =====
-- nuclear/cooldown.py, nuclear/executor.py and the polls of nuclear/controller.py. Times are Unix
-- milliseconds; the seconds of the source are these divided by a thousand.
use ghost_grid.Common.{
  ℕ, ◌+◌, ◌-◌, ◌*◌, Bool, true, false, Option, none, some, [], ltb, leb, length, if◌then◌else◌,
  Dict, keys, map, Floats, Float,
}
use ghost_grid.Portfolio.State.{PortfolioState, daily_pnl}
use ghost_grid.Nuclear.Triggers.{NuclearReason, is_empty, evaluate_triggers}

abbrev pub cooldown_duration_ms : ℕ
cooldown_duration_ms = 15 * 60 * 1000

pub record NuclearCooldown : Type 0 where
  pub active : Bool
  pub remaining_ms : ℕ
  pub daily_nuclear_count : ℕ
  pub day_locked : Bool

-- How one awaited close ended: it returned a truth value, or an exception that `gather` passed on.
pub data CloseResult : Type 0 where
  returned : Bool → CloseResult
  failed : CloseResult

-- What a nuclear close meets outside: whether the commander that it is given has a method `close`, whether the
-- closes finished within the three seconds, and the result of each. No commander of execution/ has that method.
pub record CloseWorld : Type 0 where
  pub has_close : Bool
  pub timed_out : Bool
  pub result : ℕ → CloseResult

abbrev pub is_true : CloseResult → Bool
is_true (returned b) = b
is_true failed = false

module _ ⦃F : Floats⦄ where
  unfoldable pub apply_cooldown : PortfolioState → ℕ → PortfolioState × NuclearCooldown
  apply_cooldown s now =
      let until = s.last_nuclear_ts + cooldown_duration_ms in
      let active = ltb now until in
      let locked : Bool = if leb 2 s.nuclear_count_today then true else s.day_locked in
      (
        record s { day_locked = locked; circuit_breaker = active },
        record {
          active = active;
          remaining_ms = until - now;
          daily_nuclear_count = s.nuclear_count_today;
          day_locked = locked;
        },
      )

  -- The ids in the order of the portfolio's dict, each with whether its close was confirmed; none is the
  -- AttributeError of the first call where the commander has no `close`.
  unfoldable pub execute_nuclear_close : CloseWorld → PortfolioState → Option (Dict ℕ Bool)
  execute_nuclear_close w s =
      if is_empty s.open_positions
      then some []
      else if w.has_close
      then some (
          map (λ pid. (pid, if w.timed_out then false else is_true (w.result pid)))
            (keys s.open_positions))
      else none

  pub record NuclearEvent : Type 0 where
    pub reason : NuclearReason
    pub timestamp_ms : ℕ
    pub positions_closed : ℕ
    pub portfolio_pnl : Float
    pub equity_at_fire : Float

  -- What follows the closes of a fire.
  abbrev pub record_fire :
      PortfolioState
      → ℕ
      → NuclearReason
      → Dict ℕ Bool
      → PortfolioState × Option (NuclearEvent × NuclearCooldown)
  record_fire s now reason close_results =
      let event : NuclearEvent = record {
        reason = reason;
        timestamp_ms = now;
        positions_closed = length close_results;
        portfolio_pnl = daily_pnl s;
        equity_at_fire = s.net_equity;
      } in
      let (s', cooldown) =
        apply_cooldown
          (record s { last_nuclear_ts = now; nuclear_count_today = s.nuclear_count_today + 1 })
          now in
      (s', some (event, cooldown))

  -- `_poll_and_check`: the portfolio after it, with the event and the cooldown of a fire. An exception of the
  -- closes ends the poll before anything is written; `run` logs it.
  unfoldable pub poll_and_check :
      CloseWorld → PortfolioState → ℕ → PortfolioState × Option (NuclearEvent × NuclearCooldown)
  poll_and_check w s now = elim (evaluate_triggers s) [
    | none ↦ ((apply_cooldown s now).0, none)
    | some reason ↦ elim (execute_nuclear_close w s) [
      | none ↦ (s, none)
      | some close_results ↦ record_fire s now reason close_results
    ]
  ]
