-- ===== src/SocialBrain.antt =====
-- platform/social-brain/repository.ts: the store of contacts, threads and messages.
pub mod Types
pub mod Repository
pub mod Spec
pub mod Promise
pub mod Merges
pub mod Refines
mod Tests
