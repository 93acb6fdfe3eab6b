-- ===== src/Crm.antt =====
-- crm: identities over the contacts of the platforms.
pub mod Email
pub mod LeadScore
pub mod Buckets
pub mod Types
pub mod Repository
pub mod Sync
pub mod Merged
pub mod Synced
pub mod Listing
pub mod Batched
pub mod Listed
pub mod Gdpr
pub mod Deleted
mod Tests
