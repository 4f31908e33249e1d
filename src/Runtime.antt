-- ===== src/Runtime.antt =====
-- crates/lucy-runtime: the loop that decides, acts and checks, and how it grades a claim to be done.
pub mod Observation
pub mod React
pub mod Json
pub mod Lane
pub mod Agent
mod Tests
mod AgentTests
mod LaneTests
