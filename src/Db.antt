-- ===== src/Db.antt =====
-- db/: the pool of connections, and what is recovered after a crash.
pub mod Connection
pub mod Handed
pub mod Recovery
