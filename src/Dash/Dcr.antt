-- ===== src/Dash/Dcr.antt =====
-- The decoder configuration records of ISO 14496-15: libdash/dash.go reads them for the segmenter
-- and librtmp/rtsp_server.go for the SDP; librtmp/rtsp_ingest.go writes the one of H.264 for a stream
-- that arrives without it.
use ggmpeg.Prelude.{
  ℕ, zero, suc, ◌+◌, ◌-◌, ◌*◌, ◌/◌, ◌%◌, ◌^◌, ◌≤◌, ◌<◌, ◌≡◌, refl, sym, ap, ◌∙◌, ◌≢◌, ◌↔◌, ◌⊎◌, inl,
  inr, Bool, true, false, not, ◌&&◌, ◌||◌, Option, none, some, List, [], ◌∷◌, ◌++◌, append-nil,
  append_assoc, arith, ltb, leb, ◌==◌, if◌then◌else◌, ltb→lt, lt→ltb, leb→le, le→leb, leb-false→lt,
  ltb-false→le, ==_iff, tests, Bool-cases, Option-cases, length, get_elem?, set, length-append,
  get_or, take, drop, replicate, take-append-drop, length-take, length-drop, length-replicate,
  take-append_left, drop-append_left, take_whole, drop_whole, drop-append_past, take-append_past,
  Bytes, IsByte, All, All-append, at, has_bit, put_be16, put_be24, put_be32, be16_at, be24_at,
  be32_at,
}
use ggmpeg.Dash.Sps.{parse_sps_dimensions, parse_hevc_sps_dimensions}
pub mod Read
pub mod Arrays

pub data DcrError : Type 0 where
  too_short no_sps truncated_sps : DcrError
  truncated_pps_count no_pps truncated_pps_length truncated_pps : DcrError
  truncated_array truncated_nal_length truncated_nal missing_sets : DcrError

pub record AvcSets : Type 0 where
  pub sps : Bytes
  pub pps : Bytes
  pub size : ℕ × ℕ

-- From the count of the PPS on, `rest`.
unfoldable pub parse_pps : Bytes → Bytes → DcrError ⊎ AvcSets
parse_pps sps rest =
    let pps_len = be16_at rest 1 in
    if leb (length rest) 0
    then inl truncated_pps_count
    else if at rest 0 == 0
    then inl no_pps
    else if ltb (length rest) 3
    then inl truncated_pps_length
    else if ltb (length (drop 3 rest)) pps_len
    then inl truncated_pps
    else inr
        (record { sps = sps; pps = take pps_len (drop 3 rest); size = parse_sps_dimensions sps })

unfoldable pub parse_avc_dcr : Bytes → DcrError ⊎ AvcSets
unfolding parse_pps
parse_avc_dcr src =
    let sps_len = be16_at src 6 in
    let body = drop 8 src in
    if ltb (length src) 9
    then inl too_short
    else if at src 5 % 2 ^ 5 == 0
    then inl no_sps
    else if ltb (length body) sps_len
    then inl truncated_sps
    else parse_pps (take sps_len body) (drop sps_len body)

-- The parser of the RTSP server: it looks at neither count, takes no empty set, and leaves the
-- dimensions 0.
unfoldable pub parse_pps_for_rtsp : Bytes → Bytes → DcrError ⊎ AvcSets
parse_pps_for_rtsp sps rest =
    let pps_len = be16_at rest 1 in
    if leb (length rest) 0
    then inl truncated_pps_count
    else if ltb (length rest) 3
    then inl truncated_pps_length
    else if ltb (length (drop 3 rest)) pps_len || leb pps_len 0
    then inl truncated_pps
    else inr (record { sps = sps; pps = take pps_len (drop 3 rest); size = (0, 0) })

unfoldable pub parse_avc_dcr_for_rtsp : Bytes → DcrError ⊎ AvcSets
unfolding parse_pps_for_rtsp
parse_avc_dcr_for_rtsp src =
    let sps_len = be16_at src 6 in
    let body = drop 8 src in
    if ltb (length src) 9
    then inl too_short
    else if ltb (length body) sps_len || leb sps_len 0
    then inl truncated_sps
    else parse_pps_for_rtsp (take sps_len body) (drop sps_len body)

-- `nil` is no bytes.
unfoldable pub build_avc_sequence_header : Bytes → Bytes → Bytes
build_avc_sequence_header sps pps =
    if ltb (length sps) 4
    then []
    else (0x01 ∷ at sps 1 ∷ at sps 2 ∷ at sps 3 ∷ 0xff ∷ 0xe1 ∷ [])
      ++ (put_be16 (length sps) ++ (sps ++ (0x01 ∷ (put_be16 (length pps) ++ pps))))

-- The first set of each kind that was found.
pub record HevcSets : Type 0 where
  pub vps : Option Bytes
  pub sps : Option Bytes
  pub pps : Option Bytes

abbrev pub no_sets : HevcSets
no_sets = record { vps = none; sps = none; pps = none }

-- A copy of no bytes is `nil` still.
unfoldable pub first_of : Option Bytes → Bytes → Option Bytes
first_of none [] = none
first_of none (x ∷ xs) = some (x ∷ xs)
first_of (some a) b = some a

-- The switch over the type of the array.
unfoldable pub keep_set : ℕ → Bytes → HevcSets → HevcSets
keep_set nal_type nal s =
    if nal_type == 32
    then record s { vps = first_of s.vps nal }
    else if nal_type == 33
    then record s { sps = first_of s.sps nal }
    else if nal_type == 34
    then record s { pps = first_of s.pps nal }
    else s

-- The inner loop, over the units of one array: the sets, and the bytes behind the array.
unfoldable pub nalus_loop : ℕ → ℕ → Bytes → HevcSets → DcrError ⊎ (HevcSets × Bytes)
nalus_loop zero nal_type src s = inr (s, src)
nalus_loop (suc num_nalus) nal_type src s =
    let n = be16_at src 0 in
    let body = drop 2 src in
    let rest = nalus_loop num_nalus nal_type (drop n body) (keep_set nal_type (take n body) s) in
    if ltb (length src) 2
    then inl truncated_nal_length
    else if ltb (length body) n
    then inl truncated_nal
    else rest

-- The outer loop, over the arrays.
unfoldable pub arrays_loop : ℕ → Bytes → HevcSets → DcrError ⊎ HevcSets
arrays_loop zero src s = inr s
arrays_loop (suc num_arrays) src s =
    let next =
      elim (nalus_loop (be16_at src 1) (at src 0 % 2 ^ 6) (drop 3 src) s)
        as (λ _. DcrError ⊎ HevcSets) [
          | inl e ↦ inl e
          | inr (s', src') ↦ arrays_loop num_arrays src' s'
        ] in
    if ltb (length src) 3 then inl truncated_array else next

-- What the parser returns without an error has an SPS and a PPS.
unfoldable pub check_sets : DcrError ⊎ HevcSets → DcrError ⊎ HevcSets
check_sets (inl e) = inl e
check_sets (inr s) = elim s.sps [
  | none ↦ inl missing_sets
  | some sps ↦ elim s.pps [ none ↦ inl missing_sets | some pps ↦ inr s ]
]

unfoldable pub parse_hevc_dcr_for_rtsp : Bytes → DcrError ⊎ HevcSets
unfolding check_sets
parse_hevc_dcr_for_rtsp src =
    if ltb (length src) 23
    then inl too_short
    else check_sets (arrays_loop (at src 22) (drop 23 src) no_sets)

-- The inner loop of the segmenter's parser: `inl` is its return.
unfoldable pub size_in_nalus : ℕ → ℕ → Bytes → (ℕ × ℕ) ⊎ Bytes
size_in_nalus zero nal_type src = inr src
size_in_nalus (suc num_nalus) nal_type src =
    let n = be16_at src 0 in
    let body = drop 2 src in
    let rest = size_in_nalus num_nalus nal_type (drop n body) in
    if ltb (length src) 2 || ltb (length body) n
    then inl (0, 0)
    else if nal_type == 33
    then inl (parse_hevc_sps_dimensions (take n body))
    else rest

unfoldable pub size_in_arrays : ℕ → Bytes → ℕ × ℕ
size_in_arrays zero src = (0, 0)
size_in_arrays (suc num_arrays) src =
    let next =
      elim (size_in_nalus (be16_at src 1) (at src 0 % 2 ^ 6) (drop 3 src)) as (λ _. ℕ × ℕ) [
        | inl size ↦ size
        | inr src' ↦ size_in_arrays num_arrays src'
      ] in
    if ltb (length src) 3 then (0, 0) else next

-- The dimensions, and the profile and the level that the codec string names.
unfoldable pub parse_hevc_dcr_dimensions : Bytes → DcrError ⊎ ((ℕ × ℕ) × ℕ × ℕ)
parse_hevc_dcr_dimensions src =
    if ltb (length src) 23
    then inl too_short
    else inr (size_in_arrays (at src 22) (drop 23 src), at src 1 % 2 ^ 5, at src 12)
