-- ===== src/Observability.antt =====
-- observability/: the detector of drift between live and backtest results.
pub mod Drift
