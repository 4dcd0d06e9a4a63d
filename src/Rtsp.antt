-- ===== src/Rtsp.antt =====
-- librtsp: RTP packets and the payload formats for H.264, H.265 and AAC.
pub mod Rtp
pub mod H264
pub mod Reassembler
pub mod Hevc
pub mod Aac
mod Tests
