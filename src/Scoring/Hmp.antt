-- ===== src/Scoring/Hmp.antt =====
-- scoring/hmp/: the price action strategy.
pub mod Swing
pub mod Bos
pub mod Choch
pub mod Fvg
pub mod OrderBlock
pub mod Engine
pub mod Detected
pub mod Gaps
