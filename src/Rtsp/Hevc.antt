-- ===== src/Rtsp/Hevc.antt =====
-- librtsp/hevc.go: H.265 NAL units as RTP payloads. An `mtu` of 0 stands for every value that is
-- not positive.
use ggmpeg.Prelude.{
  ℕ, zero, suc, ◌+◌, ◌-◌, ◌*◌, ◌/◌, ◌%◌, ◌^◌, ◌≤◌, ◌<◌, ◌≡◌, refl, sym, ap, ◌∙◌, ◌≢◌, ◌↔◌, ◌⊎◌, inl,
  inr, Bool, true, false, not, ◌&&◌, ◌||◌, Option, none, some, List, [], ◌∷◌, ◌++◌, append-nil,
  append_assoc, arith, ltb, leb, ◌==◌, if◌then◌else◌, ltb→lt, lt→ltb, leb→le, le→leb, leb-false→lt,
  ltb-false→le, ==_iff, tests, Bool-cases, Option-cases, length, get_elem?, set, length-append,
  get_or, take, drop, replicate, take-append-drop, length-take, length-drop, length-replicate,
  take-append_left, drop-append_left, take_whole, drop_whole, Bytes, IsByte, All, All-append, at,
  has_bit, put_be16, put_be24, put_be32, be16_at, be24_at, be32_at,
}
use ggmpeg.Rtsp.H264.{default_mtu}
pub mod Fragments

abbrev pub hevc_fu_header : ℕ → Bool → Bool → ℕ
hevc_fu_header nal_type start end =
    nal_type + (if start then 0x80 else 0) + (if end then 0x40 else 0)

-- The fragment loop over `body[i:]`; `start` says that i is 0.
unfoldable pub hevc_fragment_loop : ℕ → Bool → ℕ → ℕ → ℕ → ℕ → Bytes → List Bytes
hevc_fragment_loop zero start frag_size hdr0 hdr1 nal_type rest = []
hevc_fragment_loop (suc fuel) start frag_size hdr0 hdr1 nal_type [] = []
hevc_fragment_loop (suc fuel) start frag_size hdr0 hdr1 nal_type (b ∷ rest) =
    let body = b ∷ rest in
    let end = leb (length body) frag_size in
    (hdr0 ∷ hdr1 ∷ hevc_fu_header nal_type start end ∷ take frag_size body)
    ∷ hevc_fragment_loop fuel false frag_size hdr0 hdr1 nal_type (drop frag_size body)

-- The first header byte keeps the bits 0x81 and gets type 49.
unfoldable pub hevc_fragment : ℕ → ℕ → ℕ → Bytes → List Bytes
hevc_fragment frag_size hdr0 hdr1 body =
    if frag_size == 0
    then []
    else hevc_fragment_loop (length body) true frag_size (hdr0 / 2 ^ 7 * 2 ^ 7 + 49 * 2 + hdr0 % 2)
        hdr1 (hdr0 / 2 % 2 ^ 6) body

unfoldable pub pack_hevc_nal : Bytes → ℕ → List Bytes
unfolding hevc_fragment
pack_hevc_nal [] mtu = []
pack_hevc_nal (hdr0 ∷ []) mtu = []
pack_hevc_nal (hdr0 ∷ hdr1 ∷ body) mtu =
    let mtu' = if mtu == 0 then default_mtu else mtu in
    if leb (length (hdr0 ∷ hdr1 ∷ body)) mtu'
    then (hdr0 ∷ hdr1 ∷ body) ∷ []
    else hevc_fragment (mtu' - 3) hdr0 hdr1 body

unfoldable pub hevc_contains_keyframe : List Bytes → Bool
hevc_contains_keyframe [] = false
hevc_contains_keyframe ([] ∷ nals) = hevc_contains_keyframe nals
hevc_contains_keyframe ((b ∷ n) ∷ nals) =
    let t = b / 2 % 2 ^ 6 in (leb 16 t && leb t 23) || hevc_contains_keyframe nals
