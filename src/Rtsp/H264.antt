-- ===== src/Rtsp/H264.antt =====
-- librtsp/h264.go, and AVCCFromNALs and ContainsKeyframe of librtsp/rtp_unpack.go: NAL units as RTP
-- payloads and as length-prefixed AVCC. An `mtu` of 0 stands for every value that is not positive.
use ggmpeg.Prelude.{
  ℕ, zero, suc, ◌+◌, ◌-◌, ◌*◌, ◌/◌, ◌%◌, ◌^◌, ◌≤◌, ◌<◌, ◌≡◌, refl, sym, ap, ◌∙◌, ◌≢◌, ◌↔◌, ◌⊎◌, inl,
  inr, Bool, true, false, not, ◌&&◌, ◌||◌, Option, none, some, List, [], ◌∷◌, ◌++◌, append-nil,
  append_assoc, arith, ltb, leb, ◌==◌, if◌then◌else◌, ltb→lt, lt→ltb, leb→le, ==_iff, tests,
  Bool-cases, Option-cases, length, get_elem?, set, length-append, get_or, take, drop, replicate,
  take-append-drop, length-take, length-drop, length-replicate, Bytes, IsByte, All, All-append, at,
  has_bit, put_be16, put_be24, put_be32, be16_at, be24_at, be32_at,
}
pub mod Avcc
pub mod Fragments

abbrev pub default_mtu : ℕ
default_mtu = 1400

-- `uint8` header bytes of one FU-A fragment: the indicator with type 28, and the S and E bits.
abbrev pub fu_indicator : ℕ → ℕ
fu_indicator nri = nri * 2 ^ 5 + 28

abbrev pub fu_header : ℕ → Bool → Bool → ℕ
fu_header nal_type start end = nal_type + (if start then 0x80 else 0) + (if end then 0x40 else 0)

-- The fragment loop over `body[i:]`; `start` says that i is 0.
unfoldable pub fragment_loop : ℕ → Bool → ℕ → ℕ → ℕ → Bytes → List Bytes
fragment_loop zero start frag_size nri nal_type rest = []
fragment_loop (suc fuel) start frag_size nri nal_type [] = []
fragment_loop (suc fuel) start frag_size nri nal_type (b ∷ rest) =
    let body = b ∷ rest in
    let end = leb (length body) frag_size in
    (fu_indicator nri ∷ fu_header nal_type start end ∷ take frag_size body)
    ∷ fragment_loop fuel false frag_size nri nal_type (drop frag_size body)

-- Each round takes a byte at least, so as many rounds as there are bytes are enough.
unfoldable pub fragment : ℕ → ℕ → Bytes → List Bytes
fragment frag_size nal_header body =
    if frag_size == 0
    then []
    else fragment_loop (length body) true frag_size (nal_header / 2 ^ 5 % 2 ^ 2)
        (nal_header % 2 ^ 5) body

unfoldable pub pack_nal : Bytes → ℕ → List Bytes
unfolding fragment
pack_nal [] mtu = []
pack_nal (hdr ∷ body) mtu =
    let mtu' = if mtu == 0 then default_mtu else mtu in
    if leb (length (hdr ∷ body)) mtu' then (hdr ∷ body) ∷ [] else fragment (mtu' - 2) hdr body

-- Each round takes the four bytes of a length at least.
unfoldable pub split_avcc_loop : ℕ → Bytes → List Bytes
split_avcc_loop zero buf = []
split_avcc_loop (suc fuel) buf =
    let size = be32_at buf 0 in
    let rest = drop 4 buf in
    let nals = split_avcc_loop fuel (drop size rest) in
    if ltb (length buf) 4
    then []
    else if size == 0 || ltb (length rest) size
    then []
    else take size rest ∷ nals

unfoldable pub split_avcc : Bytes → List Bytes
unfolding split_avcc_loop
split_avcc buf = split_avcc_loop (length buf) buf

unfoldable pub avcc_from_nals : List Bytes → Bytes
avcc_from_nals [] = []
avcc_from_nals (n ∷ nals) = put_be32 (length n) ++ (n ++ avcc_from_nals nals)

unfoldable pub contains_keyframe : List Bytes → Bool
contains_keyframe [] = false
contains_keyframe (n ∷ nals) = (ltb 0 (length n) && at n 0 % 2 ^ 5 == 5) || contains_keyframe nals
