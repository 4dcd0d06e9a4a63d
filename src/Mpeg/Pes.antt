-- ===== src/Mpeg/Pes.antt =====
-- libmpeg/pes.go: a PES that is written packet by packet.
use ggmpeg.Prelude.{
  ℕ, ◌+◌, ◌-◌, ◌*◌, ◌/◌, ◌%◌, ◌^◌, Bool, true, false, not, ◌||◌, Option, none, some, [], ◌∷◌, ◌++◌,
  ltb, leb, ◌==◌, if◌then◌else◌, length, take, drop, Bytes, put_be16, put_be24,
}

-- The fields that Remain and Marshal use. HeaderData and the two indices are the state of the writing.
pub record Pes : Type 0 where
  pub packet_start_code_prefix : ℕ
  pub stream_id : ℕ
  pub stream_type : ℕ
  pub pes_packet_length : ℕ
  pub pts : ℕ
  pub dts : ℕ
  pub payload : Bytes
  pub index : ℕ
  pub header_data : Bytes
  pub header_index : ℕ

-- Five bytes of a 33-bit stamp behind a 4-bit prefix, with marker bits.
abbrev pub put_stamp : ℕ → ℕ → Bytes
put_stamp prefix x =
    (prefix * 2 ^ 4 + 1 + x / 2 ^ 30 % 2 ^ 3 * 2)
    ∷ (x / 2 ^ 22 % 256)
    ∷ (x / 2 ^ 15 % 2 ^ 7 * 2 + 1)
    ∷ (x / 2 ^ 7 % 256)
    ∷ (x % 2 ^ 7 * 2 + 1)
    ∷ []

-- The stream ids without the optional header.
unfoldable pub is_plain_stream : ℕ → Bool
is_plain_stream id =
    id == 0xbc
    || id == 0xbe
    || id == 0xbf
    || id == 0xf0
    || id == 0xf1
    || id == 0xff
    || id == 0xf2
    || id == 0xf8

unfoldable pub optional_header : ℕ → ℕ → ℕ → Bytes
optional_header id pts dts =
    if is_plain_stream id
    then []
    else 0x80
      ∷ (if pts == dts
          then 0x80 ∷ 0x05 ∷ put_stamp 2 pts
          else 0xc0 ∷ 0x0a ∷ (put_stamp 3 pts ++ put_stamp 1 dts))

unfoldable pub packet_length_of : Pes → ℕ
packet_length_of p =
    let size = length p.payload + 5 + 3 + (if not (p.pts == p.dts) then 5 else 0) in
    if ltb 0xffff size then 0 else size

-- At index 0 the header is built anew.
unfoldable pub remain_pes : Pes → Pes × ℕ
remain_pes p =
    let len = packet_length_of p in
    let header =
      put_be24 p.packet_start_code_prefix
      ++ (p.stream_id ∷ (put_be16 len ++ optional_header p.stream_id p.pts p.dts)) in
    if p.index == 0
    then (
      record p { pes_packet_length = len; header_data = header },
      length header + length p.payload,
    )
    else (p, (length p.header_data - p.header_index) + (length p.payload - p.index))

-- What is left of the data, within the room; whether that was all.
unfoldable pub marshal_payload : Pes → ℕ → Pes × Bytes × Bool
marshal_payload p writable =
    let left = drop p.index p.payload in
    if ltb p.index (length p.payload)
    then if leb (length left) writable
      then (record p { index = length p.payload }, left, true)
      else (record p { index = p.index + writable }, take writable left, false)
    else (p, [], true)

-- The payload behind what is left of the header.
unfoldable pub marshal_after : Bytes → Pes × Bytes × Bool → Pes × Bytes × Bool
marshal_after left (p, b, finish) = (p, left ++ b, finish)

-- None is the error of a room of 0. A header that does not fit is cut, and its index stays.
unfoldable pub marshal_pes : Pes → ℕ → Option (Pes × Bytes × Bool)
marshal_pes p writable =
    let left = drop p.header_index p.header_data in
    let p1 = record p { header_index = length p.header_data } in
    if writable == 0
    then none
    else if ltb p.header_index (length p.header_data)
    then if leb (length left) writable
      then some (marshal_after left (marshal_payload p1 (writable - length left)))
      else some (p, take writable left, false)
    else some (marshal_payload p writable)
