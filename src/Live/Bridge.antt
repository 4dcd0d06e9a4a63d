-- ===== src/Live/Bridge.antt =====
-- librtmp/srt_server.go: what the SRT endpoint makes of the access units and audio frames of its
-- transport stream demultiplexer (libsrt/tsdemux.go).
use ggmpeg.Prelude.{
  ℕ, ◌+◌, ◌-◌, ◌*◌, ◌/◌, ◌%◌, ◌^◌, Bool, true, not, ◌&&◌, Option, none, some, List, [], ◌∷◌, ◌++◌,
  leb, ◌==◌, if◌then◌else◌, length, drop, Bytes, at,
}
use ggmpeg.Flv.{VideoTag, video, audio}
use ggmpeg.Rtsp.H264.{avcc_from_nals}
use ggmpeg.Dash.Dcr.{build_avc_sequence_header}
use ggmpeg.Srt.Demux.{AccessUnit, AudioFrame}
use ggmpeg.Live.{
  RoomEvent, set_video_header, set_audio_header, write_meta, reset, write, avc_tag, aac_tag,
  key_frame, inter_frame, avc_sequence_header, avc_nalu, aac_sequence_header, aac_raw,
}
use ggmpeg.Live.Annexb.{split_annexb}
pub mod Audio
pub mod Video

-- The fields of the bridge that the callbacks use; a cached parameter set may be nil.
pub record Bridge : Type 0 where
  pub emitted_video : Bool
  pub emitted_audio : Bool
  pub cached_sps : Option Bytes
  pub cached_pps : Option Bytes

-- The units of an access unit by kind: the last SPS and PPS, and all others in order.
pub record Sorted : Type 0 where
  pub sps : Option Bytes
  pub pps : Option Bytes
  pub pictures : List Bytes

unfoldable pub sort_nal : Bytes → Sorted → Sorted
sort_nal [] s = s
sort_nal (h ∷ t) s =
    if h % 2 ^ 5 == 7
    then record s { sps = some (h ∷ t) }
    else if h % 2 ^ 5 == 8
    then record s { pps = some (h ∷ t) }
    else record s { pictures = s.pictures ++ (h ∷ t) ∷ [] }

unfoldable pub sort_loop : List Bytes → Sorted → Sorted
unfolding sort_nal
sort_loop [] s = s
sort_loop (n ∷ ns) s = sort_loop ns (sort_nal n s)

unfoldable pub newer : Option Bytes → Option Bytes → Option Bytes
newer none old = old
newer (some b) old = some b

unfoldable pub sequence_header : Bytes → Bytes → VideoTag
sequence_header sps pps =
    avc_tag 0 key_frame avc_sequence_header 0 (build_avc_sequence_header sps pps)

unfoldable pub header_events : Bridge → Option Bytes → Option Bytes → Bridge × List RoomEvent
unfolding sequence_header
header_events br none pps = (br, [])
header_events br (some sps) none = (br, [])
header_events br (some sps) (some pps) = (
  record br { emitted_video = true },
  set_video_header (sequence_header sps pps) ∷ write_meta (video (sequence_header sps pps)) ∷ [],
)

-- The sequence header, as soon as both parameter sets are known, and once.
unfoldable pub emit_header : Bridge → Sorted → Bridge × List RoomEvent
unfolding header_events newer
emit_header br s =
    let sps = newer s.sps br.cached_sps in
    let pps = newer s.pps br.cached_pps in
    if br.emitted_video
    then (br, [])
    else header_events (record br { cached_sps = sps; cached_pps = pps }) sps pps

-- The times are uint64 in 90 kHz, those of the tag uint32 in milliseconds.
unfoldable pub picture_tag : AccessUnit → List Bytes → VideoTag
picture_tag au pictures =
    avc_tag (au.dts / 90 % 2 ^ 32) (if au.key then key_frame else inter_frame) avc_nalu
      ((au.pts + 2 ^ 64 - au.dts) % 2 ^ 64 / 90 % 2 ^ 32) (avcc_from_nals pictures)

unfoldable pub picture_events : AccessUnit → List Bytes → List RoomEvent
unfolding picture_tag
picture_events au [] = []
picture_events au (n ∷ ns) =
    (if au.key then reset ∷ [] else []) ++ write (video (picture_tag au (n ∷ ns))) ∷ []

unfoldable pub on_video : Bridge → AccessUnit → Bridge × List RoomEvent
unfolding sort_loop emit_header picture_events
on_video br au =
    let s = sort_loop (split_annexb au.nal) (record { sps = none; pps = none; pictures = [] }) in
    let header = emit_header br s in (header.0, header.1 ++ picture_events au s.pictures)

-- The AudioSpecificConfig that an ADTS header stands for.
unfoldable pub config_of : Bytes → Bytes
config_of b =
    let profile = at b 2 / 2 ^ 6 % 2 ^ 2 in
    let sample_index = at b 2 / 2 ^ 2 % 2 ^ 4 in
    let channels = at b 2 % 2 * 2 ^ 2 + at b 3 / 2 ^ 6 % 2 ^ 2 in
    ((profile + 1) * 2 ^ 3 % 256 + sample_index / 2 % 2 ^ 3)
    ∷ (sample_index % 2 * 2 ^ 7 + channels % 2 ^ 4 * 2 ^ 3)
    ∷ []

unfoldable pub channels_of : Bytes → ℕ
channels_of b = at b 2 % 2 * 2 ^ 2 + at b 3 / 2 ^ 6 % 2 ^ 2

unfoldable pub is_adts : Bytes → Bool
is_adts b = leb 7 (length b) && (at b 0 == 0xff && (at b 1 / 2 ^ 4 == 0xf))

unfoldable pub on_audio : Bridge → AudioFrame → Bridge × List RoomEvent
unfolding config_of channels_of is_adts
on_audio br af =
    let chans = channels_of af.payload in
    let header = aac_tag 0 chans aac_sequence_header (config_of af.payload) in
    let frame = write (audio (aac_tag (af.pts / 90 % 2 ^ 32) chans aac_raw (drop 7 af.payload))) in
    if not (is_adts af.payload) then (br, []) else if br.emitted_audio then (br, frame ∷ []) else (
      record br { emitted_audio = true },
      set_audio_header header ∷ write_meta (audio header) ∷ frame ∷ [],
    )
