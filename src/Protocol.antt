-- ===== src/Protocol.antt =====
-- pkg/protocol/mqtt: the packet types, the decoders and the encoders.
pub mod Decode
pub mod Encode
pub mod RoundTrip
pub mod Subscribe
pub mod Panics
mod Examples
