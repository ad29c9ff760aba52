-- ===== src/Session.antt =====
-- pkg/session/session.go: the encoder of PUBLISH packets, the actor's handling of a message, and the
-- topic aliases of a session.
pub mod Length
pub mod Packet
pub mod Actor
pub mod Alias
pub mod Framing
pub mod Order
mod Examples
