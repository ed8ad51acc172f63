-- ===== src/Engine.antt =====
-- The queue of the engine: internal/engine/queue.go. A torrent's state and what is left of it, which
-- its actor reports, are fields of the model's record; the loop that calls `reevaluateQueue` is a
-- timer.
pub mod Queue
pub mod Position
pub mod Limits
pub mod Alone
mod Tests
