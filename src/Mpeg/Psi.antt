-- ===== src/Mpeg/Psi.antt =====
-- The tables of libmpeg/psi.go, the PAT and the PMT, over the connection that is read from. A Go map
-- is its list of entries, in the order in which it is visited or filled.
use ggmpeg.Prelude.{
  ℕ, zero, suc, ◌+◌, ◌-◌, ◌*◌, ◌/◌, ◌%◌, ◌^◌, ◌≤◌, ◌<◌, ◌≡◌, refl, sym, ap, ◌∙◌, ◌≢◌, ◌↔◌, ◌⊎◌, inl,
  inr, Bool, true, false, not, ◌&&◌, ◌||◌, Option, none, some, List, [], ◌∷◌, ◌++◌, append-nil,
  append_assoc, arith, ltb, leb, ◌==◌, if◌then◌else◌, ltb→lt, lt→ltb, leb→le, le→leb, leb-false→lt,
  ltb-false→le, ==_iff, tests, Bool-cases, Option-cases, length, get_elem?, set, length-append,
  get_or, take, drop, replicate, take-append-drop, length-take, length-drop, length-replicate,
  take-append_left, drop-append_left, take_whole, drop_whole, drop-append_past, take-append_past,
  Bytes, IsByte, All, All-append, at, has_bit, put_be16, put_be24, put_be32, be16_at, be24_at,
  be32_at,
}
use ggmpeg.Rtmp.Reader
use ggmpeg.Rtmp.Reader.{Reader, Parser, read, pure, fail}
use ggmpeg.Mpeg.Crc.{crc32}
pub mod RoundTrip
pub mod Streams
mod Tests

pub record Pat : Type 0 where
  pub table_id : ℕ
  pub section_syntax_indicator : ℕ
  pub section_length : ℕ
  pub transport_stream_id : ℕ
  pub version_number : ℕ
  pub current_next_indicator : ℕ
  pub section_number : ℕ
  pub last_section_number : ℕ
  pub pmts : List (ℕ × ℕ)

-- The entries by PID: for a PMT its program number, for a stream its type and id.
module _ {A : Type 0} where
  unfoldable pub has_pid : ℕ → List (ℕ × A) → Bool
  has_pid pid [] = false
  has_pid pid ((k, a) ∷ rest) = if k == pid then true else has_pid pid rest

  unfoldable pub add_pid : ℕ → A → List (ℕ × A) → List (ℕ × A)
  add_pid pid a entries = if has_pid pid entries then entries else entries ++ ((pid, a) ∷ [])

-- The programs of the association, four bytes each.
unfoldable pub pat_entries : Bytes → List (ℕ × ℕ) → List (ℕ × ℕ)
pat_entries (n1 ∷ n0 ∷ p1 ∷ p0 ∷ rest) pmts =
    let number = n1 * 2 ^ 8 + n0 in
    let more = add_pid (p1 % 2 ^ 5 * 2 ^ 8 + p0) number pmts in
    if number == 0 then pat_entries rest pmts else pat_entries rest more
pat_entries (x ∷ y ∷ z ∷ []) pmts = pmts
pat_entries (x ∷ y ∷ []) pmts = pmts
pat_entries (x ∷ []) pmts = pmts
pat_entries [] pmts = pmts

-- The first eight bytes.
unfoldable pub pat_header : Bytes → List (ℕ × ℕ) → Pat
pat_header b pmts = record {
  table_id = at b 0;
  section_syntax_indicator = at b 1 / 2 ^ 7 % 2;
  section_length = at b 1 % 2 ^ 4 * 2 ^ 8 + at b 2;
  transport_stream_id = be16_at b 3;
  version_number = at b 5 / 2 % 2 ^ 5;
  current_next_indicator = at b 5 % 2;
  section_number = at b 6;
  last_section_number = at b 7;
  pmts = pmts;
}

abbrev pub is_section : ℕ → ℕ → ℕ → ℕ → Bool
is_section id table_id syntax len =
    table_id == id && syntax == 1 && len / 2 ^ 10 % 2 ^ 2 == 0 && leb len 0x3fd

unfoldable pub pat_bytes : Pat → Bytes
pat_bytes p =
    p.table_id
    ∷ (p.section_syntax_indicator % 2 * 2 ^ 7 + 0x30 + p.section_length / 2 ^ 8 % 2 ^ 4)
    ∷ (p.section_length % 256)
    ∷ (p.transport_stream_id / 2 ^ 8 % 256)
    ∷ (p.transport_stream_id % 256)
    ∷ (0xc0
        + p.version_number / 2 ^ 3 % 2 ^ 2 * 2 ^ 4
        + p.version_number % 2 ^ 2 * 2
        + p.current_next_indicator % 2)
    ∷ p.section_number
    ∷ p.last_section_number
    ∷ []

-- `0xe0 | uint8(pid >> 8)`: the upper three bits are set.
unfoldable pub pat_entry_bytes : List (ℕ × ℕ) → Bytes
pat_entry_bytes [] = []
pat_entry_bytes ((pid, number) ∷ rest) =
    (number / 2 ^ 8 % 256)
    ∷ (number % 256)
    ∷ (0xe0 + pid / 2 ^ 8 % 2 ^ 5)
    ∷ (pid % 256)
    ∷ pat_entry_bytes rest

-- A section with its checksum; none where the packet has no room for it.
abbrev pub with_crc : Bytes → ℕ → Option Bytes
with_crc b writable =
    let section = b ++ put_be32 (crc32 b) in
    if ltb writable (length section) then none else some section

unfoldable pub marshal_pat : Pat → ℕ → Option Bytes
marshal_pat p writable = with_crc (pat_bytes p ++ pat_entry_bytes p.pmts) writable

unfoldable pub remain_pat : Pat → ℕ
remain_pat p = 8 + 4 + 4 * length p.pmts

pub record Pmt : Type 0 where
  pub table_id : ℕ
  pub section_syntax_indicator : ℕ
  pub section_length : ℕ
  pub program_number : ℕ
  pub version_number : ℕ
  pub current_next_indicator : ℕ
  pub section_number : ℕ
  pub last_section_number : ℕ
  pub pcr_pid : ℕ
  pub program_info_length : ℕ
  pub streams : List (ℕ × (ℕ × ℕ))

-- The shifts by 8 are of a uint8 and leave nothing.
unfoldable pub pmt_header : Bytes → List (ℕ × (ℕ × ℕ)) → Pmt
pmt_header b streams = record {
  table_id = at b 0;
  section_syntax_indicator = at b 1 / 2 ^ 7 % 2;
  section_length = at b 1 % 2 ^ 4 * 2 ^ 8 % 256 + at b 2;
  program_number = be16_at b 3;
  version_number = at b 5 / 2 % 2 ^ 5;
  current_next_indicator = at b 5 % 2;
  section_number = at b 6;
  last_section_number = at b 7;
  pcr_pid = at b 8 % 2 ^ 5 * 2 ^ 8 + at b 9;
  program_info_length = (at b 10 % 2 ^ 4 * 2 ^ 8 + at b 11) % 256;
  streams = streams;
}

-- The streams: five bytes, and behind a new PID its descriptors. A PES that is read has neither type
-- nor id. None is an error; on fuel.
unfoldable pub pmt_streams : ℕ → Bytes → List (ℕ × (ℕ × ℕ)) → Option (List (ℕ × (ℕ × ℕ)))
pmt_streams zero b streams = some streams
pmt_streams (suc n) b streams =
    let pid = at b 1 % 2 ^ 5 * 2 ^ 8 + at b 2 in
    let info = at b 3 % 2 ^ 4 * 2 ^ 8 + at b 4 in
    let known = pmt_streams n (drop 5 b) streams in
    let new = pmt_streams n (drop (5 + info) b) (add_pid pid (0, 0) streams) in
    if ltb (length b) 5
    then some streams
    else if has_pid pid streams
    then known
    else if not (info / 2 ^ 10 % 2 ^ 2 == 0)
    then none
    else new

unfoldable pub stream_type_of : ℕ → ℕ → ℕ
stream_type_of stream_type stream_id =
    if stream_type == 0
    then if stream_id / 2 ^ 4 == 0xe then 0x1b else if stream_id / 2 ^ 4 == 0xc then 0x0f else 0
    else stream_type

unfoldable pub pmt_bytes : Pmt → Bytes
pmt_bytes p =
    p.table_id
    ∷ (p.section_syntax_indicator % 2 * 2 ^ 7 + 0x30 + p.section_length / 2 ^ 8 % 2 ^ 4)
    ∷ (p.section_length % 256)
    ∷ (p.program_number / 2 ^ 8 % 256)
    ∷ (p.program_number % 256)
    ∷ (0xc0 + p.version_number % 2 ^ 5 * 2 + p.current_next_indicator % 2)
    ∷ p.section_number
    ∷ p.last_section_number
    ∷ (0xe0 + p.pcr_pid / 2 ^ 8 % 2 ^ 5)
    ∷ (p.pcr_pid % 256)
    ∷ (0xf0 + p.program_info_length / 2 ^ 8 % 2 ^ 4)
    ∷ (p.program_info_length % 256)
    ∷ []

unfoldable pub pmt_stream_bytes : List (ℕ × (ℕ × ℕ)) → Bytes
pmt_stream_bytes [] = []
pmt_stream_bytes ((pid, (stream_type, stream_id)) ∷ rest) =
    stream_type_of stream_type stream_id
    ∷ (0xe0 + pid / 2 ^ 8 % 2 ^ 5)
    ∷ (pid % 256)
    ∷ 0xf0
    ∷ 0
    ∷ pmt_stream_bytes rest

unfoldable pub marshal_pmt : Pmt → ℕ → Option Bytes
marshal_pmt p writable = with_crc (pmt_bytes p ++ pmt_stream_bytes p.streams) writable

unfoldable pub remain_pmt : Pmt → ℕ
remain_pmt p = 12 + 4 + 5 * length p.streams

module _ (R : Reader) where
  infixl 5 ◌>>=◌
  abbrev ◌>>=◌ : {A B : Type 0} → Parser R A → (A → Parser R B) → Parser R B
  m >>= f = Reader.◌>>=◌ R m f

  -- None is any error. The lengths of the two slices that are made are uint16.
  unfoldable pub parse_pat_section : List (ℕ × ℕ) → Parser R Pat
  parse_pat_section pmts = read R 8 >>= λ b1.
      let p = pat_header b1 pmts in
      if is_section 0 p.table_id p.section_syntax_indicator p.section_length
      then (read R ((p.section_length + 2 ^ 16 - 9) % 2 ^ 16) >>= λ b2. read R 4 >>= λ b3.
          if be32_at b3 0 == crc32 (b1 ++ b2)
          then pure R (record p { pmts = pat_entries b2 pmts })
          else fail R)
      else fail R

  unfoldable pub parse_pmt_section : List (ℕ × (ℕ × ℕ)) → Parser R Pmt
  parse_pmt_section streams = read R 12 >>= λ b1.
      let p = pmt_header b1 streams in
      if is_section 2 p.table_id p.section_syntax_indicator p.section_length
        && p.section_number == 0
        && p.last_section_number == 0
        && p.program_info_length / 2 ^ 10 % 2 ^ 2 == 0
      then (read R p.program_info_length >>= λ b2.
          read R ((p.section_length + 2 ^ 16 + 2 ^ 16 - 9 - p.program_info_length - 4) % 2 ^ 16)
          >>= λ b3. elim (pmt_streams (length b3) b3 streams) [
            | some found ↦ read R 4 >>= λ b4.
                if be32_at b4 0 == crc32 ((b1 ++ b2) ++ b3)
                then pure R (record p { streams = found })
                else fail R
            | none ↦ fail R
          ])
      else fail R
