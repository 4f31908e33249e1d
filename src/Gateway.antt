-- ===== src/Gateway.antt =====
-- crates/lucy-gateway: pairing and the authentication of devices.
pub mod Auth
pub mod Host
mod Tests
mod HostTests
