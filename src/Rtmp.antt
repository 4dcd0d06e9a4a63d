-- ===== src/Rtmp.antt =====
-- librtmp: the chunk stream, messages out of chunks, control messages, and aggregate messages.
pub mod Reader
pub mod Chunk
pub mod Message
pub mod Control
pub mod Aggregate
pub mod Handshake
mod Tests
