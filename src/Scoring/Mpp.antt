-- ===== src/Scoring/Mpp.antt =====
-- scoring/mpp/: the volume imbalance strategy.
pub mod Cvd
pub mod Bias
pub mod Absorption
pub mod Engine
