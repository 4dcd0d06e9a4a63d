-- ===== src/Mpeg.antt =====
-- libmpeg: sections, PES and transport packets, as the segmenter of libhls writes them.
pub mod Crc
pub mod Psi
pub mod Pes
pub mod Ts
pub mod Mux
pub mod Frame
mod Tests
