-- ===== src/Srt.antt =====
-- libsrt: the SRT packet and handshake codecs, the loss lists, and the listener's sessions.
pub mod Packet
pub mod Control
pub mod Handshake
pub mod Listener
pub mod Demux
mod Tests
