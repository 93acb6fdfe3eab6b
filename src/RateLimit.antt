-- ===== src/RateLimit.antt =====
-- platform/rate-limit: the token bucket and the broker.
pub mod Bucket
pub mod Refill
pub mod Broker
pub mod Quota
mod Tests
