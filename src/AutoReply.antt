-- ===== src/AutoReply.antt =====
-- routing: the automatic replies, from a scored draft to its audit row.
pub mod Decision
pub mod Audit
pub mod Prune
pub mod Rows
pub mod Pipeline
pub mod Flights
pub mod Landed
pub mod Faithful
pub mod Trail
pub mod Posture
pub mod Retention
mod Tests
