-- ===== src/Retry.antt =====
-- platform/retry: the retry loop and the dead-letter queue.
pub mod Backoff
pub mod Dlq
pub mod Landing
pub mod Laws
mod Tests
