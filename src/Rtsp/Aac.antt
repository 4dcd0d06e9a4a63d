-- ===== src/Rtsp/Aac.antt =====
-- librtsp/aac.go, and AACAUExtract of librtsp/rtp_unpack.go: AAC frames in RTP payloads.
use ggmpeg.Prelude.{
  ℕ, zero, suc, ◌+◌, ◌-◌, ◌*◌, ◌/◌, ◌%◌, ◌^◌, ◌≤◌, ◌<◌, ◌≡◌, refl, sym, ap, ◌∙◌, ◌≢◌, ◌↔◌, ◌⊎◌, inl,
  inr, Bool, true, false, not, ◌&&◌, ◌||◌, Option, none, some, List, [], ◌∷◌, ◌++◌, append-nil,
  append_assoc, arith, ltb, leb, ◌==◌, if◌then◌else◌, ltb→lt, lt→ltb, leb→le, le→leb, leb-false→lt,
  ltb-false→le, ==_iff, tests, Bool-cases, Option-cases, length, get_elem?, set, length-append,
  get_or, take, drop, replicate, take-append-drop, length-take, length-drop, length-replicate,
  take-append_left, drop-append_left, take_whole, drop_whole, Bytes, IsByte, All, All-append, at,
  has_bit, put_be16, put_be24, put_be32, be16_at, be24_at, be32_at,
}
pub mod RoundTrip

unfoldable pub pack_aac_frame : Bytes → Bytes
pack_aac_frame [] = []
pack_aac_frame (b ∷ rest) =
    let frame =
      if leb (2 ^ 13) (length (b ∷ rest)) then take (2 ^ 13 - 1) (b ∷ rest) else b ∷ rest in
    put_be16 16 ++ (put_be16 (length frame * 2 ^ 3) ++ frame)

unfoldable pub adts_to_raw : Bytes → Bytes
adts_to_raw frame =
    if ltb (length frame) 7
    then frame
    else if at frame 0 == 0xff && at frame 1 / 2 ^ 4 == 0xf
    then drop 7 frame
    else frame

-- The sizes in the AU headers, two bytes each.
unfoldable pub au_sizes : Bytes → List ℕ
au_sizes (h ∷ l ∷ rest) = ((h * 2 ^ 8 + l) / 2 ^ 3) ∷ au_sizes rest
au_sizes _ = []

unfoldable pub split_units : List ℕ → Bytes → List Bytes
split_units [] body = []
split_units (size ∷ sizes) body =
    if size == 0 || ltb (length body) size
    then []
    else take size body ∷ split_units sizes (drop size body)

unfoldable pub aac_au_extract : Bytes → List Bytes
unfolding au_sizes split_units
aac_au_extract payload =
    let hdr_bytes = (be16_at payload 0 + 7) / 8 in
    if ltb (length payload) 2
    then []
    else if ltb (length payload) (2 + hdr_bytes)
    then []
    else split_units (au_sizes (take hdr_bytes (drop 2 payload))) (drop (2 + hdr_bytes) payload)
