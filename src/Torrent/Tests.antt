-- ===== src/Torrent/Tests.antt =====
-- Runs of the state machine, and the theorems at concrete inputs.
