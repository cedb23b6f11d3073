-- ===== src/Portfolio.antt =====
-- The portfolio package: portfolio/state.py with portfolio/ledger.py, and the children. `Machines` is
-- the heap of state machines: the registry and the portfolio hold references to the same objects.
pub mod State
pub mod Correlation
pub mod Mode
pub mod Equity
