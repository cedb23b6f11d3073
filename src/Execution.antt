-- ===== src/Execution.antt =====
-- execution/: how orders are sent, confirmed and sent again, and their leverage.
pub mod Retry
pub mod Attempts
pub mod Leverage
pub mod Fills
pub mod Dispatcher
pub mod Commander
pub mod Orders
pub mod Paper
