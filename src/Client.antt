-- ===== src/Client.antt =====
-- The client: crates/ongrok-relay-client/src/main.rs.
pub mod Link
pub mod Identity
pub mod Session
pub mod Dial
pub mod Retry
pub mod Streams
pub mod Commands
pub mod Tests
