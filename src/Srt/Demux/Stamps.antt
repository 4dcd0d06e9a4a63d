-- ===== src/Srt/Demux/Stamps.antt =====
-- The PES header that libmpeg/pes.go builds, as libsrt/tsdemux.go reads it.
use ggmpeg.Prelude.{
  ℕ, ◌+◌, ◌*◌, ◌/◌, ◌%◌, ◌^◌, ◌<◌, ◌≡◌, ap, ◌∙◌, inl, inr, false, some, ◌∷◌, ◌++◌, arith, ◌==◌,
  Bool-cases, Bytes,
}
use ggmpeg.Mpeg.Pes.{Pes, put_stamp, is_plain_stream, optional_header, packet_length_of, remain_pes}
use ggmpeg.Srt.Demux.{read_pts, parse_pes_header}

stamp_bits : (k x : ℕ) → x < 2 ^ 33 → k < 8 → read_pts (put_stamp k x) 0 ≡ x
stamp_bits k x h hk =
    let q30 : x / 2 ^ 22 / 256 ≡ x / 2 ^ 30 = omega arith in
    let q22 : x / 2 ^ 15 / 128 ≡ x / 2 ^ 22 = omega arith in
    let q15 : x / 2 ^ 7 / 256 ≡ x / 2 ^ 15 = omega arith in
    let top : (k * 16 + 1 + x / 2 ^ 30 % 8 * 2) % 16 / 2 ≡ x / 2 ^ 30 = omega arith in omega arith

header_equal :
    (id len pts : ℕ) (rest : Bytes)
    → pts < 2 ^ 33
    → parse_pes_header (
        0
        ∷ 0
        ∷ 1
        ∷ id
        ∷ (len / 256 % 256)
        ∷ (len % 256)
        ∷ 0x80
        ∷ 0x80
        ∷ 0x05
        ∷ (put_stamp 2 pts ++ rest))
      ≡ some (pts, pts, rest)
unfolding parse_pes_header
header_equal id len pts rest h = rw (stamp_bits 2 pts h (omega arith)) (ground arith)

header_apart :
    (id len pts dts : ℕ) (rest : Bytes)
    → pts < 2 ^ 33
    → dts < 2 ^ 33
    → parse_pes_header (
        0
        ∷ 0
        ∷ 1
        ∷ id
        ∷ (len / 256 % 256)
        ∷ (len % 256)
        ∷ 0x80
        ∷ 0xc0
        ∷ 0x0a
        ∷ (put_stamp 3 pts ++ (put_stamp 1 dts ++ rest)))
      ≡ some (pts, dts, rest)
unfolding parse_pes_header
header_apart id len pts dts rest hp hd =
    rw (stamp_bits 3 pts hp (omega arith), stamp_bits 1 dts hd (omega arith)) (ground arith)

-- The header of a PES that is not started is read back.
pub parse_pes_header-remain_pes :
    (p : Pes) (rest : Bytes)
    → p.index ≡ 0
    → p.packet_start_code_prefix ≡ 1
    → is_plain_stream p.stream_id ≡ false
    → p.pts < 2 ^ 33
    → p.dts < 2 ^ 33
    → parse_pes_header ((remain_pes p).0.header_data ++ rest) ≡ some (p.pts, p.dts, rest)
unfolding remain_pes optional_header
parse_pes_header-remain_pes p rest h0 h1 h2 hp hd = elim (Bool-cases (p.pts == p.dts)) [
  | inl e ↦
      let same : p.pts ≡ p.dts = ground arith in
      rw (h0, h1, h2, e)
        (header_equal p.stream_id
            (packet_length_of (record p { packet_start_code_prefix = 1; index = 0 })) p.pts rest hp
          ∙ ap (λ d. some (p.pts, d, rest)) same)
  | inr e ↦
      rw (h0, h1, h2, e)
        (header_apart p.stream_id
          (packet_length_of (record p { packet_start_code_prefix = 1; index = 0 })) p.pts p.dts rest
          hp hd)
]
