-- ===== src/Server.antt =====
-- crates/ongrok-relay-server: the state, the store, the sessions and the control API of the relay.
pub mod State
pub mod Wire
pub mod Config
pub mod Store
pub mod Relay
pub mod Registry
pub mod Revocation
pub mod Session
pub mod Forwarding
pub mod Api
pub mod Mirror
pub mod System
pub mod Identities
pub mod Interleaving
pub mod Joins
pub mod Transport
pub mod Ingress
pub mod Listeners
pub mod Serving
pub mod Start
pub mod Tests
