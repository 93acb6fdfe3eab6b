-- ===== src/Webhooks.antt =====
-- platform/webhooks: the receiver of the platforms' webhooks.
pub mod Registry
pub mod Receiver
pub mod Replay
pub mod Again
mod Tests
