-- ===== src/Mpeg/Psi/Tests.antt =====
-- Tests of the tables (libmpeg/psi.go).
use ggmpeg.Prelude.{◌≡◌, refl, some, [], ◌∷◌, arith, Bytes}
use ggmpeg.Rtmp.Reader.{list_reader, Parses}
use ggmpeg.Mpeg.Crc.{crc32, crc_loop, crc_table}
use ggmpeg.Mpeg.Psi.{
  Pat, Pmt, has_pid, pat_bytes, pat_entry_bytes, marshal_pat, pmt_header, parse_pat_section,
}
use ggmpeg.Mpeg.Psi.RoundTrip.{IsPat, are_programs, parse_pat_section-marshal_pat}

abbrev one_program : Pat
one_program = record {
  table_id = 0;
  section_syntax_indicator = 1;
  section_length = 13;
  transport_stream_id = 1;
  version_number = 0;
  current_next_indicator = 1;
  section_number = 0;
  last_section_number = 0;
  pmts = (0x1001, 1) ∷ [];
}

one_program-IsPat : IsPat one_program
unfolding are_programs has_pid
one_program-IsPat = record {
  id_zero = refl;
  syntax_one = refl;
  length_eq = refl;
  length_le = omega arith;
  stream_lt = omega arith;
  version_lt = omega arith;
  current_lt = omega arith;
  programs = refl;
}

abbrev one_program_bytes : Bytes
one_program_bytes =
    0x00 ∷ 0xb0 ∷ 0x0d ∷ 0x00 ∷ 0x01 ∷ 0xc1 ∷ 0x00 ∷ 0x00 ∷ 0x00 ∷ 0x01 ∷ 0xf0 ∷ 0x01 ∷ 0x2e ∷ 0x70
    ∷ 0x19 ∷ 0x05 ∷ []

one_program_written : marshal_pat one_program 183 ≡ some one_program_bytes
unfolding marshal_pat pat_bytes pat_entry_bytes crc32 crc_loop crc_table
one_program_written = refl

parse_pat_section-marshal_pat_example :
    Parses list_reader (parse_pat_section list_reader []) one_program_bytes one_program
parse_pat_section-marshal_pat_example =
    parse_pat_section-marshal_pat list_reader one_program 183 one_program_bytes one_program-IsPat
      one_program_written

abbrev two_streams : Pmt
two_streams = record {
  table_id = 2;
  section_syntax_indicator = 1;
  section_length = 23;
  program_number = 1;
  version_number = 0;
  current_next_indicator = 1;
  section_number = 0;
  last_section_number = 0;
  pcr_pid = 0x100;
  program_info_length = 0;
  streams = (0x100, (0x1b, 0xe0)) ∷ (0x101, (0x0f, 0xc0)) ∷ [];
}

abbrev two_streams_bytes : Bytes
two_streams_bytes =
    0x02 ∷ 0xb0 ∷ 0x17 ∷ 0x00 ∷ 0x01 ∷ 0xc1 ∷ 0x00 ∷ 0x00 ∷ 0xe1 ∷ 0x00 ∷ 0xf0 ∷ 0x00 ∷ 0x1b ∷ 0xe1
    ∷ 0x00 ∷ 0xf0 ∷ 0x00 ∷ 0x0f ∷ 0xe1 ∷ 0x01 ∷ 0xf0 ∷ 0x00 ∷ 0x2f ∷ 0x44 ∷ 0xb9 ∷ 0x9b ∷ []

-- The length of 0x102 arrives as 2.
long_section_cut : (pmt_header (2 ∷ 0xb1 ∷ 2 ∷ []) []).section_length ≡ 2
unfolding pmt_header
long_section_cut = refl
