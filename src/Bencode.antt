-- ===== src/Bencode.antt =====
-- The format of torrent files and of many messages: internal/bencode. Values are those that decoding
-- into an `any` gives; what the decoder and the encoder do with Go's own types by reflection is left
-- out.
pub mod Number
pub mod Scan
pub mod Value
pub mod Decode
pub mod Encode
pub mod Keys
pub mod RoundTrip
pub mod Progress
pub mod Skipping
pub mod Nesting
mod Tests
