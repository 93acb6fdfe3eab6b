-- ===== src/Approvals.antt =====
-- approvals/approval-queue.ts: the queue of requests that wait for a decision.
pub mod Queue
pub mod Keeps
pub mod Promises
pub mod Timers
pub mod Settling
mod Tests
