-- ===== src/Hls/Lift.antt =====
-- libhls/hls.go: toPES, which makes a PES of a tag of a room, with the cache of audio frames
-- (audio_cache.go) and the state of the codecs that it keeps. PTS_DTSFlag and PESHeaderDataLength are
-- set anew by the writer of the header.
use ggmpeg.Prelude.{
  ℕ, zero, suc, ◌+◌, ◌-◌, ◌*◌, ◌/◌, ◌%◌, ◌^◌, ◌≤◌, ◌<◌, ◌≡◌, refl, sym, ap, ◌∙◌, ◌≢◌, ◌↔◌, ◌⊎◌, inl,
  inr, Bool, true, false, not, ◌&&◌, ◌||◌, Option, none, some, List, [], ◌∷◌, ◌++◌, append-nil,
  append_assoc, arith, ltb, leb, ◌==◌, if◌then◌else◌, ltb→lt, lt→ltb, leb→le, le→leb, leb-false→lt,
  ltb-false→le, ==_iff, tests, Bool-cases, Option-cases, length, get_elem?, set, length-append,
  get_or, take, drop, replicate, take-append-drop, length-take, length-drop, length-replicate,
  take-append_left, drop-append_left, take_whole, drop_whole, drop-append_past, take-append_past,
  Bytes, IsByte, All, All-append, at, has_bit, put_be16, put_be24, put_be32, be16_at, be24_at,
  be32_at,
}
use ggmpeg.Flv.{
  Tag, video, audio, meta, VideoTag, AudioTag, flv_video_avc, flv_video_hevc, flv_audio_aac,
}
use ggmpeg.Aac.{AacHeader, parse_aac_header, adts}
use ggmpeg.Avc.{AvcError, Annexb, parse_specific_info, is_nalu_header, get_annexb_h264}
use ggmpeg.Mpeg.Pes.{Pes}
use ggmpeg.Mpeg.Ts.{ts_audio_pid, ts_video_pid}
use ggmpeg.Live.{key_frame, avc_sequence_header, aac_sequence_header}
use ggmpeg.Hls.{Align, align}
pub mod Video
pub mod Frames

-- The bytes of the frames since the last GetFrame, and the time of the first; `num` is a byte.
pub record AudioCache : Type 0 where
  pub num : ℕ
  pub offset : ℕ
  pub pts : ℕ
  pub buf : Bytes

abbrev pub cache_max_frames : ℕ
cache_max_frames = 6

unfoldable pub cache_frame : AudioCache → Bytes → ℕ → AudioCache
cache_frame a src pts =
    let started : AudioCache =
      if a.num == 0 then record { num = 0; offset = 0; pts = pts; buf = [] } else a in
    record {
      num = (started.num + 1) % 256;
      offset = started.offset + length src;
      pts = started.pts;
      buf = started.buf ++ src;
    }

unfoldable pub get_frame : AudioCache → AudioCache × ℕ × ℕ × Bytes
get_frame a = (record a { num = 0 }, a.offset, a.pts, a.buf)

-- What the segmenter keeps between tags: the stream type of the video in its tables is set by them.
pub record Lift : Type 0 where
  pub stream_type : ℕ
  pub specific_info : Bytes
  pub ah : AacHeader
  pub align : Align
  pub cache : AudioCache

-- The PES with its PID, and whether it is a key frame of the video.
pub record Lifted : Type 0 where
  pub pes : Pes
  pub pid : ℕ
  pub video_key : Bool

abbrev pub aac_rates : List ℕ
aac_rates =
    96000 ∷ 88200 ∷ 64000 ∷ 48000 ∷ 44100 ∷ 32000 ∷ 24000 ∷ 22050 ∷ 16000 ∷ 12000 ∷ 11025 ∷ 8000
    ∷ 7350 ∷ []

unfoldable pub rate_of : AacHeader → ℕ
rate_of ah = if leb ah.sample_rate 12 then get_or aac_rates ah.sample_rate 44100 else 44100

-- A PES at its start; the header is built anew there.
unfoldable pub new_pes : ℕ → ℕ → ℕ → ℕ → Bytes → Pes
new_pes stream_id stream_type pts dts b = record {
  packet_start_code_prefix = 1;
  stream_id = stream_id;
  stream_type = stream_type;
  pes_packet_length = 0;
  pts = pts;
  dts = dts;
  payload = b;
  index = 0;
  header_data = [];
  header_index = 0;
}

-- A uint32 in milliseconds, in 90 kHz.
unfoldable pub ticks : ℕ → ℕ
ticks ms = ms * 90 % 2 ^ 32

-- Each round takes the length at least. A length of 0, or past the end, ends the loop.
unfoldable pub to_annexb_loop : ℕ → Bytes → Bytes
to_annexb_loop zero b = []
to_annexb_loop (suc fuel) b =
    let size = be32_at b 0 in
    let rest = drop 4 b in
    let next = to_annexb_loop fuel (drop size rest) in
    if ltb (length b) 4
    then []
    else if size == 0 || ltb (length rest) size
    then []
    else 0 ∷ 0 ∷ 0 ∷ 1 ∷ (take size rest ++ next)

unfoldable pub avcc_to_annexb : Bytes → Bytes
unfolding to_annexb_loop
avcc_to_annexb buf = to_annexb_loop (length buf) buf

-- A PES for every sixth frame.
unfoldable pub emit_batch : Lift → Align → AudioCache → Lift × Option Lifted
unfolding get_frame new_pes
emit_batch s placed cache =
    let taken = get_frame cache in
    let out : Lifted = record {
      pes = new_pes 0xc0 0x0f taken.2 taken.2 taken.3;
      pid = ts_audio_pid;
      video_key = false;
    } in
    if ltb cache.num cache_max_frames
    then (record s { align = placed; cache = cache }, none)
    else (record s { align = placed; cache = taken.0 }, some out)

-- The audio is put on its raster and gathered.
unfoldable pub lift_frame : Lift → ℕ → Bytes → Lift × Option Lifted
unfolding cache_frame emit_batch rate_of
lift_frame s dts b =
    let placed = align s.align dts (90000 * 1024 / rate_of s.ah) in
    emit_batch s placed.0 (cache_frame s.cache (adts s.ah b ++ b) placed.1)

unfoldable pub keep_header : Lift → Option AacHeader → Lift
keep_header s none = s
keep_header s (some ah) = record s { ah = ah }

unfoldable pub lift_audio : Lift → AudioTag → Lift × Option Lifted
unfolding lift_frame keep_header ticks
lift_audio s tag =
    if not (tag.sound_format == flv_audio_aac)
    then (s, none)
    else if tag.aac_packet_type == aac_sequence_header
    then (keep_header s (parse_aac_header tag.sound_data), none)
    else lift_frame s (ticks tag.base.timestamp) tag.sound_data

-- What ParseSpecificInfo appends, if it accepts the record.
unfoldable pub keep_info : Lift → AvcError ⊎ Bytes → Lift
keep_info s (inl e) = s
keep_info s (inr b) = record s { specific_info = s.specific_info ++ b }

-- The offset is added to the decoding time as a uint64.
unfoldable pub video_pes : ℕ → VideoTag → Bytes → Lifted
unfolding ticks new_pes
video_pes stream_type tag b =
    let dts = ticks tag.base.timestamp in
    record {
      pes = new_pes 0xe0 stream_type (if tag.cts == 0 then dts else dts + ticks tag.cts) dts b;
      pid = ts_video_pid;
      video_key = tag.frame_type == key_frame;
    }

unfoldable pub converted : Lift → VideoTag → Annexb × Option AvcError → Option Lifted
unfolding video_pes
converted s tag (a, none) = some (video_pes 0x1b tag a.out)
converted s tag (a, some e) = none

unfoldable pub is_header : VideoTag → Bool
is_header tag = tag.frame_type == key_frame && (tag.avc_packet_type == avc_sequence_header)

unfoldable pub lift_avc : Lift → VideoTag → Lift × Option Lifted
unfolding keep_info converted is_header
lift_avc s tag =
    let s1 = record s { stream_type = 0x1b } in
    if is_header tag
    then (keep_info s (parse_specific_info tag.video_data), none)
    else if is_nalu_header tag.video_data
    then (s1, some (video_pes 0x1b tag tag.video_data))
    else (s1, converted s1 tag (get_annexb_h264 s.specific_info tag.video_data))

unfoldable pub lift_hevc : Lift → VideoTag → Lift × Option Lifted
unfolding video_pes avcc_to_annexb is_header
lift_hevc s tag =
    let s1 = record s { stream_type = 0x24 } in
    if is_header tag
    then (s1, none)
    else (s1, some (video_pes 0x24 tag (avcc_to_annexb tag.video_data)))

-- The source looks at the tag's type field, which is that of the tag's Go type.
unfoldable pub to_pes : Lift → Tag → Lift × Option Lifted
unfolding lift_audio lift_avc lift_hevc
to_pes s (meta base b) = (s, none)
to_pes s (audio tag) = lift_audio s tag
to_pes s (video tag) =
    if tag.codec_id == flv_video_avc
    then lift_avc s tag
    else if tag.codec_id == flv_video_hevc
    then lift_hevc s tag
    else (s, none)
