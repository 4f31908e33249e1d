-- ===== src/Knowledge.antt =====
-- crates/lucy-knowledge: where a memory comes from and what may be done with it.
pub mod Provenance
pub mod Slugs
pub mod Files
pub mod Store
pub mod Recall
pub mod Rebuild
pub mod History
pub mod Digest
mod Tests
mod StoreTests
