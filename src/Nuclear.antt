-- ===== src/Nuclear.antt =====
-- The nuclear package: the circuit breaker of the portfolio.
pub mod Triggers
pub mod Controller
pub mod Cooldown
