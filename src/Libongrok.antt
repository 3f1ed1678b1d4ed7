-- ===== src/Libongrok.antt =====
-- crates/libongrok/src/lib.rs: the types and the protocol that the client and the server share.
pub mod Types
pub mod Validation
pub mod Frames
pub mod Tokens
pub mod Yamux
pub mod Tests
