-- ===== src/Outbox.antt =====
-- outbox: the repository of posts, the poller and its scheduler.
pub mod Types
pub mod Edit
pub mod Settle
pub mod Settled
pub mod Tick
pub mod Published
pub mod Moves
pub mod Poller
pub mod Coherent
pub mod Errors
pub mod History
pub mod Exclusive
pub mod Machine
pub mod Lawful
pub mod Claim
pub mod Repository
pub mod Scheduler
mod Tests
