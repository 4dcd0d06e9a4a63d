-- ===== src/Mp4.antt =====
-- libmp4: fragmented MP4 for DASH and HLS. Boxes, the initialisation segments for H.264 and H.265,
-- and the media segments.
pub mod Box
pub mod Init
pub mod Media
pub mod Reader
pub mod Playback
pub mod Avcc
mod Tests
