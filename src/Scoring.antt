-- ===== src/Scoring.antt =====
-- scoring/: the three engines that score a snapshot, their fusion, and the gate between a score and an order.
pub mod Snapshot
pub mod Hmp
pub mod Hlcp
pub mod Mpp
pub mod Weights
pub mod Fusion
pub mod Reach
pub mod Gate
pub mod History
