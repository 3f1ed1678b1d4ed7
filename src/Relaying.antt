-- ===== src/Relaying.antt =====
-- The client of crates/ongrok-relay-client/src/main.rs and the server of
-- crates/ongrok-relay-server/src/server.rs together.
mod Session
mod Rejection
mod Streams
mod Tests
