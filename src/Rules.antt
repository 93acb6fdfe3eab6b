-- ===== src/Rules.antt =====
-- inbox/rules: the declarative rules of the inbox.
pub mod Types
pub mod Engine
pub mod Facts
pub mod Validate
pub mod Encode
pub mod Repository
pub mod Trail
pub mod Laws
mod Tests
