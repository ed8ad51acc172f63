-- ===== src/Torrent.antt =====
-- The lifecycle of a torrent: internal/torrent/state.go.
pub mod State
pub mod Lifecycle
pub mod Priority
mod Tests
