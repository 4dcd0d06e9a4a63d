-- ===== src/Mpeg/Psi/Streams.antt =====
-- A PMT that is written and read again (libmpeg/psi.go).
use ggmpeg.Prelude.{
  ℕ, ◌+◌, ◌*◌, ◌^◌, ◌<◌, ◌≡◌, Bool, true, not, ◌&&◌, List, [], ◌∷◌, ◌++◌, ltb, length,
}
use ggmpeg.Rtmp.Reader
use ggmpeg.Rtmp.Reader.{Reader}
use ggmpeg.Mpeg.Psi.{Pmt, has_pid}

abbrev pub Streams : Type 0
Streams = List (ℕ × (ℕ × ℕ))

-- The streams as Parse knows them: by PID only.
unfoldable pub bare : Streams → Streams
bare [] = []
bare ((pid, kind) ∷ rest) = (pid, (0, 0)) ∷ bare rest

-- Streams under new PIDs of 13 bits.
unfoldable pub are_streams : Streams → Streams → Bool
are_streams acc [] = true
are_streams acc ((pid, kind) ∷ rest) =
    let more = are_streams (acc ++ ((pid, (0, 0)) ∷ [])) rest in
    ltb pid (2 ^ 13) && not (has_pid pid acc) && more

-- A PMT whose fields have their widths and whose length is that of its streams, with no descriptors
-- of the program, and of less than 256 bytes behind the length.
pub record IsPmt (p : Pmt) : Type 0 where
  pub id_two : p.table_id ≡ 2
  pub syntax_one : p.section_syntax_indicator ≡ 1
  pub length_eq : p.section_length ≡ 13 + 5 * length p.streams
  pub length_lt : p.section_length < 256
  pub program_lt : p.program_number < 2 ^ 16
  pub version_lt : p.version_number < 2 ^ 5
  pub current_lt : p.current_next_indicator < 2
  pub number_zero : p.section_number ≡ 0
  pub last_zero : p.last_section_number ≡ 0
  pub pcr_lt : p.pcr_pid < 2 ^ 13
  pub info_zero : p.program_info_length ≡ 0
  pub has_streams : are_streams [] p.streams ≡ true
