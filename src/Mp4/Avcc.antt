-- ===== src/Mp4/Avcc.antt =====
-- The decoder configuration that avcC writes, at ParseSpecificInfo (libmp4/init_segment.go,
-- libavc/avc.go).
use ggmpeg.Prelude.{
  ◌+◌, ◌*◌, ◌^◌, ◌≤◌, ◌<◌, ◌≡◌, refl, ◌∙◌, inr, false, ◌||◌, ◌∷◌, ◌++◌, arith, ltb, ◌==◌, length,
  length-append, take, drop, take-append_left, drop-append_left, drop-append_past, Bytes, at,
  put_be16,
}
use ggmpeg.Avc.{start_code, parse_specific_info}
use ggmpeg.Mp4.Init.{avcc_body}

-- ParseSpecificInfo of the configuration record that avcC writes is the SPS and the PPS, each behind
-- a start code, if the SPS has 4 bytes at least, the PPS one, and both less than 2 ^ 16.
pub parse_specific_info-avcc_body :
    (sps pps : Bytes)
    → 4 ≤ length sps
    → length sps < 2 ^ 16
    → 0 < length pps
    → length pps < 2 ^ 16
    → parse_specific_info (avcc_body sps pps) ≡ inr (start_code ++ (sps ++ (start_code ++ pps)))
unfolding parse_specific_info avcc_body
parse_specific_info-avcc_body sps pps s4 s16 p0 p16 =
    let tail = 1 ∷ (put_be16 (length pps) ++ pps) in
    let src = avcc_body sps pps in
    let size : at src 6 * 2 ^ 8 + at src 7 ≡ length sps = omega arith in
    let buf : drop (8 + length sps) src ≡ tail =
      drop-append_past (take 8 src) (sps ++ tail) (8 + length sps) (length sps) (omega arith)
      ∙ drop-append_left sps tail (length sps) refl in
    let pps_size : at tail 1 * 2 ^ 8 + at tail 2 ≡ length pps = omega arith in
    let sps_eq = take-append_left sps tail (length sps) refl in
    let lens = length-append sps tail in
    let long : ltb (length src) 9 ≡ false = ground (arith, lens) in
    let fits : (ltb (length (drop 8 src)) (length sps) || length sps == 0) ≡ false =
      ground (arith, lens) in
    let header : ltb (length tail) 4 ≡ false = ground arith in
    let fits_pps : (ltb (length pps) (length pps) || length pps == 0) ≡ false = ground arith in
    rw (long, size, fits, buf, header, pps_size, fits_pps, sps_eq) refl
