-- ===== src/RateLimit.antt =====
-- The request-rate limiter of crates/edge/src/http_rate_limit.rs: a global token bucket, and one for
-- each source address in a bounded table. Instants and durations are nanoseconds.
pub mod Bucket
pub mod Config
pub mod Limiter
pub mod Table
pub mod Rate
mod Tests
