-- ===== src/Utp.antt =====
-- The wire format of µTP: internal/utp/seq.go and packet.go. The connection and the congestion
-- control around them are driven by timers and the network.
pub mod Seq
pub mod Packet
pub mod Sack
pub mod Circle
pub mod RoundTrip
mod Tests
