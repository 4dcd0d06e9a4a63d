-- ===== src/Dash.antt =====
-- libdash/dash.go: the decoder configuration that the DASH segmenter reads. Bits is the reader of
-- bits, Sps the dimensions in a sequence parameter set, for H.264 and H.265.
pub mod Bits
pub mod Sps
pub mod Dcr
mod Tests
