-- ===== src/Security.antt =====
-- security/: the rate limiter of the operator's commands.
pub mod RateLimiter
pub mod Buckets
