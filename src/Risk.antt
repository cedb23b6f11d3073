-- ===== src/Risk.antt =====
-- The risk package: sizing, the eight checks and the governor; and the watchdog's limits.
pub mod Sizer
pub mod Validator
pub mod Watchdog
