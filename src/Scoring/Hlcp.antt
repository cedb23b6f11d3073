-- ===== src/Scoring/Hlcp.antt =====
-- scoring/hlcp/ and the ribbon of regime/indicators: the trend and liquidity strategy.
pub mod Ribbon
pub mod Liquidity
pub mod Decay
pub mod Engine
