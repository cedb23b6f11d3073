-- ===== src/Main.antt =====
-- main.py: what a snapshot does to the whole bot.
pub mod Pipeline
pub mod Guarded
pub mod Settles
pub mod Reward
