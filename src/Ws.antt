-- ===== src/Ws.antt =====
-- WebSocket frames and messages: internal/ws/frame.go and `ReadMessage` of internal/ws/conn.go. The
-- handshake over HTTP and the queue of what is sent are left out.
pub mod Frame
pub mod Masking
pub mod Wire
pub mod RoundTrip
pub mod Message
pub mod Fragments
mod Tests
