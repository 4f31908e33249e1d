-- ===== src/Scheduler.antt =====
-- crates/lucy-scheduler: cron expressions, background jobs, scheduled tasks and the delivery of messages.
pub mod Cron
pub mod Executor
pub mod Registry
pub mod Delivery
