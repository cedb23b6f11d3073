-- ===== src/Telegram.antt =====
-- telegram/: the commands of the operator, and the limit of outbound messages.
pub mod Commands
pub mod Confirmed
pub mod Locks
pub mod Alerts
pub mod Spacing
