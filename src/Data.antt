-- ===== src/Data.antt =====
-- data/: ticks, bars and their aggregation, and the ring buffer of the CVD engine.
pub mod Bars
pub mod Lanes
pub mod Ticks
pub mod Ring
pub mod Stream
pub mod Averages
pub mod Sessions
pub mod Regime
pub mod Snapshots
pub mod Router
