-- ===== src/Peer.antt =====
-- internal/peer: the wire messages of the peer protocol and the connection that handles them.
pub mod Message
pub mod HashWire
pub mod Handshake
pub mod Client
mod Tests
