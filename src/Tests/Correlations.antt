-- ===== src/Tests/Correlations.antt =====
-- The correlation of the portfolio at concrete inputs.
use ghost_grid.Common.{
  ◌≡◌, refl, String, List, [], ◌∷◌, lit, sum_from, lookup, insert, last_n, nat_eq,
}
use ghost_grid.Common.Fixed.{fixed}
use ghost_grid.Config.{long}
use ghost_grid.Positions.Machine.{Machine, new}
use ghost_grid.Portfolio.State.{Machines, PortfolioState, initial}
use ghost_grid.Portfolio.Correlation.{
  CorrelationEngine, IsUnit, new_correlation, record_all, window_of, prices_of, update_state,
  record_all-window, record_price, compute_portfolio_correlation, held_symbols, distinct,
  correlations, correlations_with, pair_correlation, calculate_correlation, update_state-IsUnit,
}

abbrev rates : List (String × fixed.Carrier)
rates =
    ("EURUSD", lit 1 0)
    ∷ ("GBPUSD", lit 2 0)
    ∷ ("EURUSD", lit 2 0)
    ∷ ("GBPUSD", lit 3 0)
    ∷ ("EURUSD", lit 3 0)
    ∷ []

abbrev machine_of : String → Machine
machine_of symbol = new 7 symbol long (lit 11000 4) (lit 10950 4) (lit 1 0) 0 (lit 10 0) (lit 1 4)

abbrev pair_heap : Machines
pair_heap = (1, machine_of "EURUSD") ∷ (2, machine_of "GBPUSD") ∷ []

abbrev pair_held : PortfolioState
pair_held = record initial { open_positions = (7, 1) ∷ (8, 2) ∷ [] }

abbrev recorded : CorrelationEngine
recorded = record_all (new_correlation 2) rates

abbrev updated : PortfolioState
updated = update_state (λ x. x) (λ xs. xs) pair_heap recorded pair_held

record_all-window_example : window_of recorded "EURUSD" ≡ last_n 2 (prices_of "EURUSD" rates)
record_all-window_example = record_all-window 2 rates "EURUSD"

update_state-IsUnit_example : IsUnit updated.avg_pair_correlation
update_state-IsUnit_example = update_state-IsUnit (λ x. x) (λ xs. xs) pair_heap recorded pair_held

-- The two windows rise together: with variances of 0.5 each, the covariance over their product is 2, cut to 1.
updated-one : updated.avg_pair_correlation ≡ lit 1 0
unfolding update_state compute_portfolio_correlation held_symbols distinct correlations
    correlations_with pair_correlation calculate_correlation record_all record_price new_correlation
    initial sum_from lookup insert new
updated-one = refl
