-- ===== src/Personality.antt =====
-- personality: the brand voice of the workspace.
pub mod Profiler
pub mod Rulebook
