-- ===== src/Quota.antt =====
-- connectors/twitter and connectors/youtube: the budgets of the platforms' paid calls.
pub mod Twitter
pub mod TwitterLaws
pub mod Youtube
pub mod YoutubeLaws
mod Tests
