-- ===== src/Avc.antt =====
-- libavc/avc.go: from length-prefixed H.264 to the byte stream format. The writer and the parser's
-- buffer are byte buffers that take every write.
use ggmpeg.Prelude.{
  ℕ, zero, suc, ◌+◌, ◌-◌, ◌*◌, ◌/◌, ◌%◌, ◌^◌, ◌≤◌, ◌<◌, ◌≡◌, refl, sym, ap, ◌∙◌, ◌≢◌, ◌↔◌, ◌⊎◌, inl,
  inr, Bool, true, false, not, ◌&&◌, ◌||◌, Option, none, some, List, [], ◌∷◌, ◌++◌, append-nil,
  append_assoc, arith, ltb, leb, ◌==◌, if◌then◌else◌, ltb→lt, lt→ltb, leb→le, le→leb, leb-false→lt,
  ltb-false→le, ==_iff, tests, Bool-cases, Option-cases, length, get_elem?, set, length-append,
  get_or, take, drop, replicate, take-append-drop, length-take, length-drop, length-replicate,
  take-append_left, drop-append_left, take_whole, drop_whole, Bytes, IsByte, All, All-append, at,
  has_bit, put_be16, put_be24, put_be32, be16_at, be24_at, be32_at,
}
pub mod Units
pub mod Stream
mod Tests

abbrev pub nalu_type_slice : ℕ
nalu_type_slice = 1

abbrev pub nalu_type_idr : ℕ
nalu_type_idr = 5

abbrev pub nalu_type_sei : ℕ
nalu_type_sei = 6

abbrev pub nalu_type_sps : ℕ
nalu_type_sps = 7

abbrev pub nalu_type_pps : ℕ
nalu_type_pps = 8

abbrev pub start_code : Bytes
start_code = 0 ∷ 0 ∷ 0 ∷ 1 ∷ []

abbrev pub nalu_aud : Bytes
nalu_aud = 0 ∷ 0 ∷ 0 ∷ 1 ∷ 9 ∷ 0xf0 ∷ []

pub data AvcError : Type 0 where
  dec_data_nil sps_data_error pps_header_error pps_data_error : AvcError
  video_data_invalid data_size_not_match nalu_body_len_error : AvcError

-- What ParseSpecificInfo appends to SpecificInfo. All that follows the header of the first PPS is
-- taken, as in the source.
unfoldable pub parse_specific_info : Bytes → AvcError ⊎ Bytes
parse_specific_info src =
    let sps_len = at src 6 * 2 ^ 8 + at src 7 in
    let tmp_buf = drop (8 + sps_len) src in
    let pps_len = at tmp_buf 1 * 2 ^ 8 + at tmp_buf 2 in
    if ltb (length src) 9
    then inl dec_data_nil
    else if ltb (length (drop 8 src)) sps_len || sps_len == 0
    then inl sps_data_error
    else if ltb (length tmp_buf) 4
    then inl pps_header_error
    else if ltb (length (drop 3 tmp_buf)) pps_len || pps_len == 0
    then inl pps_data_error
    else inr (start_code ++ (take sps_len (drop 8 src) ++ (start_code ++ drop 3 tmp_buf)))

unfoldable pub is_nalu_header : Bytes → Bool
is_nalu_header src =
    if ltb (length src) 4
    then false
    else at src 0 == 0 && at src 1 == 0 && at src 2 == 0 && at src 3 == 1

-- The four byte length in front of a unit.
unfoldable pub nalu_size : Bytes → Option ℕ
nalu_size src = if ltb (length src) 4 then none else some (be32_at src 0)

-- The variables of the loop: the parser's Pps buffer, the two flags, and what has been written.
pub record Annexb : Type 0 where
  pub pps : Bytes
  pub has_sps_pps : Bool
  pub has_write_sps_pps : Bool
  pub out : Bytes

-- The parameter sets that go before the first IDR unit.
unfoldable pub write_sps_pps : Bytes → Annexb → Annexb
write_sps_pps specific_info a = if a.has_write_sps_pps then a else record a {
  has_write_sps_pps = true;
  out = a.out ++ (if a.has_sps_pps then a.pps else specific_info);
}

unfoldable pub write_nal : Bytes → Annexb → Annexb
write_nal nal a = record a { out = a.out ++ (start_code ++ nal) }

-- The switch over the unit's type.
unfoldable pub convert_nal : Bytes → Bytes → Annexb → Annexb
convert_nal specific_info nal a =
    let nal_type = at nal 0 % 2 ^ 5 in
    if nal_type == nalu_type_idr
    then write_nal nal (write_sps_pps specific_info a)
    else if nal_type == nalu_type_slice || nal_type == nalu_type_sei
    then write_nal nal a
    else if nal_type == nalu_type_sps || nal_type == nalu_type_pps
    then record a { has_sps_pps = true; pps = a.pps ++ (start_code ++ nal) }
    else a

-- The loop over what is left of the source, on fuel; what was written before an error stays.
unfoldable pub annexb_loop : ℕ → Bytes → Bytes → Annexb → Annexb × Option AvcError
annexb_loop zero specific_info src a = (a, some data_size_not_match)
annexb_loop (suc n) specific_info src a =
    let nal_len = be32_at src 0 in
    let rest = drop 4 src in
    let next =
      annexb_loop n specific_info (drop nal_len rest)
        (convert_nal specific_info (take nal_len rest) a) in
    if length src == 0
    then (a, none)
    else if ltb (length src) 4
    then (a, some data_size_not_match)
    else if leb nal_len (length rest) && ltb 0 nal_len
    then next
    else (a, some nalu_body_len_error)

unfoldable pub get_annexb_h264 : Bytes → Bytes → Annexb × Option AvcError
get_annexb_h264 specific_info src =
    let a : Annexb = record {
      pps = [];
      has_sps_pps = false;
      has_write_sps_pps = false;
      out = nalu_aud;
    } in
    if ltb (length src) 4
    then (record a { out = [] }, some video_data_invalid)
    else annexb_loop (suc (length src)) specific_info src a
