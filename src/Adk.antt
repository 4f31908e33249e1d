-- ===== src/Adk.antt =====
-- crates/lucy-adk: the compaction of a session's history.
pub mod Compaction
mod Tests
