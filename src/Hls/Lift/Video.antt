-- ===== src/Hls/Lift/Video.antt =====
-- A tag of H.264 through toPES (libhls/hls.go).
use ggmpeg.Prelude.{
  ◌%◌, ◌^◌, ◌<◌, ◌≡◌, refl, ap, ◌∙◌, ◌⊎◌, inl, inr, true, false, Option, none, some, List, [], ◌∷◌,
  ◌++◌, append_assoc, arith, ◌==◌, length, Bytes, All, at,
}
use ggmpeg.Flv.{video, VideoTag, flv_video_avc}
use ggmpeg.Rtsp.H264.{avcc_from_nals}
use ggmpeg.Avc.{AvcError, Annexb, is_nalu_header, get_annexb_h264, nalu_aud, start_code}
use ggmpeg.Avc.Units.{IsUnit, byte_stream, get_annexb_h264-avcc_from_nals}
use ggmpeg.Live.{avc_sequence_header, avc_nalu}
use ggmpeg.Live.Annexb.{join_annexb}
use ggmpeg.Hls.Lift.{Lift, video_pes, converted, is_header, lift_avc, to_pes}

-- A first unit of one byte would look like a start code.
no_start_code :
    (n : Bytes) (ns : List Bytes)
    → 1 < length n
    → length n < 2 ^ 32
    → is_nalu_header (avcc_from_nals (n ∷ ns)) ≡ false
unfolding is_nalu_header avcc_from_nals
no_start_code n ns h hl = ground arith

converted_lem :
    (s : Lift) (tag : VideoTag) (r : Annexb × Option AvcError) (b : Bytes)
    → r.0.out ≡ b
    → r.1 ≡ none
    → converted s tag r ≡ some (video_pes 0x1b tag b)
unfolding converted
converted_lem s tag (a, none) b e h = rw e refl
converted_lem s tag (a, some x) b e h = cc

is_header-nalu : (tag : VideoTag) → tag.avc_packet_type ≡ avc_nalu → is_header tag ≡ false
unfolding is_header
is_header-nalu tag h =
    let e : (tag.avc_packet_type == avc_sequence_header) ≡ false = ground arith in
    rw e (ground arith)

lift_avc-avcc_from_nals :
    (s : Lift) (tag : VideoTag) (n : Bytes) (ns : List Bytes)
    → tag.avc_packet_type ≡ avc_nalu
    → tag.video_data ≡ avcc_from_nals (n ∷ ns)
    → All IsUnit (n ∷ ns)
    → 1 < length n
    → (lift_avc s tag).1
      ≡ some (video_pes 0x1b tag (nalu_aud ++ byte_stream s.specific_info [] false (n ∷ ns)))
unfolding lift_avc is_header
lift_avc-avcc_from_nals s tag n ns ht hd hn hl =
    let code : is_nalu_header tag.video_data ≡ false =
      ap is_nalu_header hd ∙ no_start_code n ns hl hn.0.length_fits in
    let (out, ok) = get_annexb_h264-avcc_from_nals s.specific_info n ns hn in
    let info = s.specific_info in
    let written = ap (λ d. (get_annexb_h264 info d).0.out) hd ∙ out in
    let none_wrong = ap (λ d. (get_annexb_h264 info d).1) hd ∙ ok in
    rw (is_header-nalu tag ht, code)
      (converted_lem (record s { stream_type = 0x1b }) tag (get_annexb_h264 info tag.video_data)
        (nalu_aud ++ byte_stream info [] false (n ∷ ns)) written none_wrong)

-- A coded picture, or what goes with it.
abbrev pub IsCoded : Bytes → Type 0
IsCoded n = (at n 0 % 2 ^ 5 ≡ 1) ⊎ (at n 0 % 2 ^ 5 ≡ 5) ⊎ (at n 0 % 2 ^ 5 ≡ 6)

byte_stream-coded :
    (info sets : Bytes) (ns : List Bytes)
    → All IsCoded ns
    → byte_stream info sets true ns ≡ join_annexb ns
unfolding byte_stream join_annexb
byte_stream-coded info sets [] h = refl
byte_stream-coded info sets (n ∷ ns) (inl e, hs) =
    rw e (ap (λ b. 0 ∷ 0 ∷ 0 ∷ 1 ∷ (n ++ b)) (byte_stream-coded info sets ns hs))
byte_stream-coded info sets (n ∷ ns) (inr (inl e), hs) =
    rw e (ap (λ b. 0 ∷ 0 ∷ 0 ∷ 1 ∷ (n ++ b)) (byte_stream-coded info sets ns hs))
byte_stream-coded info sets (n ∷ ns) (inr (inr e), hs) =
    rw e (ap (λ b. 0 ∷ 0 ∷ 0 ∷ 1 ∷ (n ++ b)) (byte_stream-coded info sets ns hs))

byte_stream-idr :
    (sps pps n : Bytes) (ns : List Bytes)
    → at n 0 % 2 ^ 5 ≡ 5
    → All IsCoded ns
    → byte_stream (start_code ++ (sps ++ (start_code ++ pps))) [] false (n ∷ ns)
      ≡ join_annexb (sps ∷ pps ∷ n ∷ ns)
unfolding byte_stream join_annexb
byte_stream-idr sps pps n ns e h =
    rw (e, byte_stream-coded (start_code ++ (sps ++ (start_code ++ pps))) [] ns h)
      (ap (λ b. 0 ∷ 0 ∷ 0 ∷ 1 ∷ b)
        (append_assoc sps (start_code ++ pps) (0 ∷ 0 ∷ 0 ∷ 1 ∷ (n ++ join_annexb ns))))

-- The access unit delimiter, as a unit.
abbrev pub delimiter : Bytes
delimiter = 9 ∷ 0xf0 ∷ []

-- A tag of H.264 whose units start with an IDR unit of two bytes at least, and hold coded pictures and
-- SEI behind it, becomes a PES with the stamps of the tag in 90 kHz, and a key frame if the tag is
-- one. Its payload is the byte stream of a delimiter, the two parameter sets of the configuration that
-- came before, and the units.
pub to_pes-avcc_from_nals :
    (s : Lift) (tag : VideoTag) (sps pps n : Bytes) (ns : List Bytes)
    → tag.codec_id ≡ flv_video_avc
    → tag.avc_packet_type ≡ avc_nalu
    → tag.video_data ≡ avcc_from_nals (n ∷ ns)
    → s.specific_info ≡ start_code ++ (sps ++ (start_code ++ pps))
    → All IsUnit (n ∷ ns)
    → 1 < length n
    → at n 0 % 2 ^ 5 ≡ 5
    → All IsCoded ns
    → (to_pes s (video tag)).1
      ≡ some (video_pes 0x1b tag (join_annexb (delimiter ∷ sps ∷ pps ∷ n ∷ ns)))
unfolding to_pes
to_pes-avcc_from_nals s tag sps pps n ns hc ht hd hs hn hl hi hk =
    let avc : (tag.codec_id == flv_video_avc) ≡ true = ground arith in
    let lifted = lift_avc-avcc_from_nals s tag n ns ht hd hn hl in
    let stream =
      ap (λ i. byte_stream i [] false (n ∷ ns)) hs ∙ byte_stream-idr sps pps n ns hi hk in
    rw avc (
      lifted
      ∙ ap (λ b. some (video_pes 0x1b tag (nalu_aud ++ b))) stream
      ∙ (unfold join_annexb in refl))
