-- ===== src/Oauth.antt =====
-- platform/oauth/state-store.ts: the anti-CSRF states of authorisation flows.
pub mod Store
pub mod Fewer
pub mod Replay
pub mod Issued
mod Tests
