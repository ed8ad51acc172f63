-- ===== src/Dht.antt =====
-- The routing table of the distributed hash table: internal/dht/id.go and table.go. The queries of
-- node.go, krpc.go and lookup.go run over the network.
pub mod Id
pub mod Table
pub mod Distance
pub mod Buckets
pub mod Changes
pub mod Closest
mod Tests
