-- ===== src/Dash/Dcr/Read.antt =====
-- The decoder configuration records, written and read.
use ggmpeg.Prelude.{
  ℕ, ◌+◌, ◌*◌, ◌/◌, ◌%◌, ◌^◌, ◌≤◌, ◌<◌, ◌≡◌, refl, inr, false, ◌∷◌, ◌++◌, arith, ltb, leb, length,
  length-append, take-append_left, drop-append_left, take_whole, Bytes, put_be16,
}
use ggmpeg.Dash.Sps.{parse_sps_dimensions}
use ggmpeg.Dash.Dcr.{
  parse_pps, parse_avc_dcr, parse_pps_for_rtsp, parse_avc_dcr_for_rtsp, build_avc_sequence_header,
}

abbrev put_pps : Bytes → Bytes
put_pps pps = 0x01 ∷ (put_be16 (length pps) ++ pps)

pub be16_lem : (n : ℕ) → n < 2 ^ 16 → n / 2 ^ 8 % 256 * 2 ^ 8 + n % 256 ≡ n
be16_lem n h = omega arith

parse_pps_lem :
    (sps pps : Bytes)
    → length pps < 2 ^ 16
    → parse_pps sps (put_pps pps)
      ≡ inr (record { sps = sps; pps = pps; size = parse_sps_dimensions sps })
unfolding parse_pps
parse_pps_lem sps pps h =
    let room : ltb (length pps) (length pps) ≡ false = ground arith in
    rw (be16_lem (length pps) h, room, take_whole pps (length pps) (omega arith)) (ground arith)

parse_pps_for_rtsp_lem :
    (sps pps : Bytes)
    → 0 < length pps
    → length pps < 2 ^ 16
    → parse_pps_for_rtsp sps (put_pps pps) ≡ inr (record { sps = sps; pps = pps; size = (0, 0) })
unfolding parse_pps_for_rtsp
parse_pps_for_rtsp_lem sps pps hp h =
    let room : ltb (length pps) (length pps) ≡ false = ground arith in
    rw (be16_lem (length pps) h, room, take_whole pps (length pps) (omega arith)) (ground arith)

-- The configuration record that the server writes around the parameter sets of a stream is read
-- back by both parsers: the segmenter's gives the sets with the dimensions of the SPS, that of the
-- RTSP server the sets alone. The SPS has 4 bytes at least, the PPS one, and both fit 16 bits.
pub parse_avc_dcr-build_avc_sequence_header :
    (sps pps : Bytes)
    → 4 ≤ length sps
    → length sps < 2 ^ 16
    → 0 < length pps
    → length pps < 2 ^ 16
    → (parse_avc_dcr (build_avc_sequence_header sps pps)
        ≡ inr (record { sps = sps; pps = pps; size = parse_sps_dimensions sps }))
      × (parse_avc_dcr_for_rtsp (build_avc_sequence_header sps pps)
          ≡ inr (record { sps = sps; pps = pps; size = (0, 0) }))
unfolding build_avc_sequence_header parse_avc_dcr parse_avc_dcr_for_rtsp
parse_avc_dcr-build_avc_sequence_header sps pps hs h16 hp hp16 =
    let whole = length-append sps (put_pps pps) in
    let long : ltb (length sps) 4 ≡ false = ground arith in
    let room : ltb (length (sps ++ put_pps pps)) (length sps) ≡ false = ground (arith, whole) in
    let some_sps : leb (length sps) 0 ≡ false = ground arith in
    let first = take-append_left sps (put_pps pps) (length sps) refl in
    let behind = drop-append_left sps (put_pps pps) (length sps) refl in
    (
      rw (long, be16_lem (length sps) h16, room, first, behind)
          (rw (parse_pps_lem sps pps hp16) (ground (arith, whole))),
      rw (long, be16_lem (length sps) h16, room, some_sps, first, behind)
          (rw (parse_pps_for_rtsp_lem sps pps hp hp16) (ground (arith, whole))),
    )
