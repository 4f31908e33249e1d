-- ===== src/Core.antt =====
-- crates/lucy-core: the stop signal, the approval gate, the shortening of tool output, and checked paths.
pub mod Interrupt
pub mod Approval
pub mod Truncate
pub mod Paths
mod Tests
mod PathTests
