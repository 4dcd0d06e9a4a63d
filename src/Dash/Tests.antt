-- ===== src/Dash/Tests.antt =====
-- Parameter sets and configuration records read at concrete inputs.
use ggmpeg.Prelude.{
  ◌+◌, ◌-◌, ◌*◌, ◌%◌, ◌^◌, ◌≤◌, ◌≡◌, refl, inr, some, List, [], ◌∷◌, ◌++◌, arith, length, replicate,
  Bytes, at,
}
use ggmpeg.Dash.Bits.{new_bit_reader, zeros_loop}
use ggmpeg.Dash.Bits.Codes.{bits_of, u, ue}
use ggmpeg.Dash.Bits.Read.{zeros_loop-enough}
use ggmpeg.Dash.Sps.{parse_sps_dimensions, parse_hevc_sps_dimensions}
use ggmpeg.Dash.Sps.Syntax.{
  is_one_of, Sps, IsSps, lsb, HevcSps, IsHevcSps, sps_bits, high_bits, order_bits, size_bits,
  hevc_sps_bits, bytes_bits,
}
use ggmpeg.Dash.Sps.Emulation.{prevent}
use ggmpeg.Dash.Sps.Size.{parse_sps_dimensions-sps_bits}
use ggmpeg.Dash.Sps.HevcSize.{parse_hevc_sps_dimensions-hevc_sps_bits}
use ggmpeg.Dash.Dcr.{
  parse_avc_dcr, parse_avc_dcr_for_rtsp, build_avc_sequence_header, parse_hevc_dcr_for_rtsp,
  parse_hevc_dcr_dimensions,
}
use ggmpeg.Dash.Dcr.Read.{parse_avc_dcr-build_avc_sequence_header}
use ggmpeg.Dash.Dcr.Arrays.{
  NalArray, hevc_dcr, first_set, first_nalu, or_else, parse_hevc_dcr-hevc_dcr,
}

-- High profile, 640 by 480.
abbrev vga : Sps
vga = record {
  profile = 100;
  constraints_level = 0x001e;
  id = 0;
  chroma_format = 1;
  colour_plane = 0;
  depth_luma = 0;
  depth_chroma = 0;
  bypass = 0;
  log2_max_frame_num = 0;
  order_count = lsb 4;
  ref_frames = 1;
  gaps = 0;
  width_minus1 = 39;
  height_minus1 = 29;
  frame_mbs_only = 1;
}

abbrev vga_rbsp : Bytes
vga_rbsp = 100 ∷ 0 ∷ 30 ∷ 172 ∷ 202 ∷ 128 ∷ 160 ∷ 61 ∷ 128 ∷ []

vga-IsSps : IsSps vga
vga-IsSps = omega arith

vga_bits : bits_of vga_rbsp ≡ sps_bits vga ++ (1 ∷ 0 ∷ 0 ∷ 0 ∷ 0 ∷ 0 ∷ 0 ∷ 0 ∷ [])
unfolding bits_of sps_bits high_bits order_bits size_bits u ue is_one_of
vga_bits = refl

vga_length : 4 ≤ length (prevent 0 (0x67 ∷ vga_rbsp))
unfolding prevent
vga_length = omega arith

parse_sps_dimensions-sps_bits_example :
    parse_sps_dimensions (prevent 0 (0x67 ∷ vga_rbsp)) ≡ ((39 + 1) * 16, (29 + 1) * (2 - 1) * 16)
parse_sps_dimensions-sps_bits_example =
    parse_sps_dimensions-sps_bits vga 0x67 vga_rbsp (1 ∷ 0 ∷ 0 ∷ 0 ∷ 0 ∷ 0 ∷ 0 ∷ 0 ∷ []) vga-IsSps
      vga_bits vga_length (omega arith) (omega arith)

abbrev full_hd : HevcSps
full_hd = record {
  vps_id = 0;
  nesting = 1;
  profile_tier_level = 1 ∷ 96 ∷ 0 ∷ 0 ∷ 0 ∷ 144 ∷ 0 ∷ 0 ∷ 0 ∷ 0 ∷ 0 ∷ 93 ∷ [];
  sps_id = 0;
  chroma = 1;
  plane = 0;
  width = 1920;
  height = 1080;
}

abbrev full_hd_rbsp : Bytes
full_hd_rbsp =
    1 ∷ 1 ∷ 96 ∷ 0 ∷ 0 ∷ 0 ∷ 144 ∷ 0 ∷ 0 ∷ 0 ∷ 0 ∷ 0 ∷ 93 ∷ 160 ∷ 3 ∷ 192 ∷ 128 ∷ 16 ∷ 230 ∷ []

full_hd-IsHevcSps : IsHevcSps full_hd
full_hd-IsHevcSps = omega arith

full_hd_bits : bits_of full_hd_rbsp ≡ hevc_sps_bits full_hd ++ (1 ∷ 0 ∷ [])
unfolding bits_of hevc_sps_bits bytes_bits u ue
full_hd_bits = refl

full_hd_length : 16 ≤ length (prevent 0 (0x42 ∷ 0x01 ∷ full_hd_rbsp))
unfolding prevent
full_hd_length = omega arith

parse_hevc_sps_dimensions-hevc_sps_bits_example :
    parse_hevc_sps_dimensions (prevent 0 (0x42 ∷ 0x01 ∷ full_hd_rbsp)) ≡ (1920, 1080)
parse_hevc_sps_dimensions-hevc_sps_bits_example =
    parse_hevc_sps_dimensions-hevc_sps_bits full_hd 0x42 0x01 full_hd_rbsp (1 ∷ 0 ∷ [])
      full_hd-IsHevcSps full_hd_bits full_hd_length

zeros_loop-enough_example :
    zeros_loop (33 + 7) 0 (new_bit_reader (0 ∷ 0x40 ∷ []))
    ≡ zeros_loop 33 0 (new_bit_reader (0 ∷ 0x40 ∷ []))
zeros_loop-enough_example = zeros_loop-enough 7 (new_bit_reader (0 ∷ 0x40 ∷ []))

abbrev sps_bytes : Bytes
sps_bytes = 0x67 ∷ 0x42 ∷ 0xc0 ∷ 0x1e ∷ []

parse_avc_dcr-build_avc_sequence_header_example :
    (parse_avc_dcr (build_avc_sequence_header sps_bytes (0x68 ∷ []))
      ≡ inr (record { sps = sps_bytes; pps = 0x68 ∷ []; size = parse_sps_dimensions sps_bytes }))
    × (parse_avc_dcr_for_rtsp (build_avc_sequence_header sps_bytes (0x68 ∷ []))
        ≡ inr (record { sps = sps_bytes; pps = 0x68 ∷ []; size = (0, 0) }))
parse_avc_dcr-build_avc_sequence_header_example =
    parse_avc_dcr-build_avc_sequence_header sps_bytes (0x68 ∷ []) (omega arith) (omega arith)
      (omega arith) (omega arith)

abbrev two_arrays : List NalArray
two_arrays = (34, (0x44 ∷ []) ∷ []) ∷ (33, (0x42 ∷ 1 ∷ []) ∷ (0x42 ∷ 2 ∷ []) ∷ []) ∷ []

two_arrays_sps : first_set 33 two_arrays ≡ some (0x42 ∷ 1 ∷ [])
unfolding first_set first_nalu or_else
two_arrays_sps = refl

two_arrays_pps : first_set 34 two_arrays ≡ some (0x44 ∷ [])
unfolding first_set first_nalu or_else
two_arrays_pps = refl

abbrev prefix : Bytes
prefix = replicate 22 1

parse_hevc_dcr-hevc_dcr_example :
    (parse_hevc_dcr_for_rtsp (hevc_dcr prefix two_arrays)
      ≡ inr (record {
        vps = first_set 32 two_arrays;
        sps = some (0x42 ∷ 1 ∷ []);
        pps = some (0x44 ∷ []);
      }))
    × (parse_hevc_dcr_dimensions (hevc_dcr prefix two_arrays)
        ≡ inr (
          parse_hevc_sps_dimensions (0x42 ∷ 1 ∷ []),
          at (hevc_dcr prefix two_arrays) 1 % 2 ^ 5,
          at (hevc_dcr prefix two_arrays) 12,
        ))
parse_hevc_dcr-hevc_dcr_example =
    parse_hevc_dcr-hevc_dcr prefix two_arrays (0x42 ∷ 1 ∷ []) (0x44 ∷ []) refl (omega arith)
      (omega arith) two_arrays_sps two_arrays_pps
