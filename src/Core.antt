-- ===== src/Core.antt =====
-- core/: the selection of a mode.
pub mod Selector
