-- ===== src/Handoff.antt =====
-- handoff/handoff-manager.ts: who owns a thread, and the drafts in flight.
pub mod Manager
pub mod Drafts
pub mod Ownership
mod Tests
