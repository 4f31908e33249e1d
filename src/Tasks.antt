-- ===== src/Tasks.antt =====
-- crates/lucy-tasks: the task table, the reminders, and the comparison of watched pages.
pub mod Store
pub mod Nudge
pub mod Diff
mod Tests
