-- ===== src/Live/Relay.antt =====
-- RTSP out of a room (sendVideo and sendAudio of librtmp/rtsp_server.go) and into one
-- (handleInterleaved of librtmp/rtsp_ingest.go and what it calls).
use ggmpeg.Prelude.{
  ℕ, ◌+◌, ◌*◌, ◌/◌, ◌%◌, ◌^◌, Bool, true, false, not, Option, none, some, List, [], ◌∷◌, ◌++◌, ◌==◌,
  if◌then◌else◌, Bytes,
}
use ggmpeg.Flv.{
  VideoTag, AudioTag, video, audio, flv_video_avc, flv_video_hevc, flv_audio_aac, flv_audio_opus,
}
use ggmpeg.Rtsp.H264.{default_mtu, pack_nal, split_avcc, avcc_from_nals, contains_keyframe}
use ggmpeg.Rtsp.Hevc.{pack_hevc_nal}
use ggmpeg.Rtsp.Aac.{pack_aac_frame, adts_to_raw, aac_au_extract}
use ggmpeg.Rtsp.Rtp.{RtpPacker, pack, RtpPacket, malformed, parsed, parse_rtp}
use ggmpeg.Rtsp.Reassembler.{Reassembler, push}
use ggmpeg.Live.{
  RoomEvent, reset, write, avc_tag, aac_tag, key_frame, inter_frame, avc_nalu, aac_raw,
}
pub mod Video

-- The pieces of one NAL unit with their markers: the mark is for the last piece of the last unit.
unfoldable pub mark_pieces : Bool → List Bytes → List (Bool × Bytes)
mark_pieces last [] = []
mark_pieces last (p ∷ []) = (last, p) ∷ []
mark_pieces last (p ∷ q ∷ ps) = (false, p) ∷ mark_pieces last (q ∷ ps)

unfoldable pub mark_nals : (Bytes → ℕ → List Bytes) → List Bytes → List (Bool × Bytes)
mark_nals pack_unit [] = []
mark_nals pack_unit (n ∷ []) = mark_pieces true (pack_unit n default_mtu)
mark_nals pack_unit (n ∷ m ∷ ns) =
    mark_pieces false (pack_unit n default_mtu) ++ mark_nals pack_unit (m ∷ ns)

-- `Pack` for each piece: the packets that are written to the track's channel.
unfoldable pub pack_all : RtpPacker → ℕ → List (Bool × Bytes) → List Bytes × RtpPacker
pack_all p ts [] = ([], p)
pack_all p ts ((marker, piece) ∷ more) =
    let rest = pack_all (pack p marker ts piece).1 ts more in
    ((pack p marker ts piece).0 ∷ rest.0, rest.1)

-- PTS in 90 kHz, as a uint32.
unfoldable pub video_clock : VideoTag → ℕ
video_clock tag = (tag.base.timestamp + tag.cts) % 2 ^ 32 * 90 % 2 ^ 32

unfoldable pub send_video : RtpPacker → VideoTag → List Bytes × RtpPacker
unfolding mark_nals mark_pieces pack_all video_clock
send_video p tag =
    let nals = split_avcc tag.video_data in
    if not (tag.avc_packet_type == avc_nalu)
    then ([], p)
    else if tag.codec_id == flv_video_avc
    then pack_all p (video_clock tag) (mark_nals pack_nal nals)
    else if tag.codec_id == flv_video_hevc
    then pack_all p (video_clock tag) (mark_nals pack_hevc_nal nals)
    else ([], p)

unfoldable pub aac_rate : ℕ → ℕ
aac_rate code =
    if code == 0 then 5500 else if code == 1 then 11025 else if code == 2 then 22050 else 44100

-- The Opus payload is the data as it is.
unfoldable pub send_audio : RtpPacker → AudioTag → List Bytes × RtpPacker
unfolding pack_all aac_rate
send_audio p tag =
    let aac_clock = tag.base.timestamp * aac_rate tag.sound_rate / 1000 % 2 ^ 32 in
    let opus_clock = tag.base.timestamp * 48000 / 1000 % 2 ^ 32 in
    if not (tag.aac_packet_type == aac_raw)
    then ([], p)
    else if tag.sound_format == flv_audio_aac
    then pack_all p aac_clock ((true, pack_aac_frame (adts_to_raw tag.sound_data)) ∷ [])
    else if tag.sound_format == flv_audio_opus
    then pack_all p opus_clock ((true, tag.sound_data) ∷ [])
    else ([], p)

-- What handleInterleaved uses of the session. A channel that was not negotiated is `none`, and an
-- audio rate that is not positive is 0.
pub record Ingest : Type 0 where
  pub video_ch : Option ℕ
  pub audio_ch : Option ℕ
  pub video_ra : Reassembler
  pub audio_rate : ℕ
  pub audio_chans : ℕ

-- What becomes of the NAL units that the reassembler returns.
unfoldable pub video_events : List Bytes → ℕ → List RoomEvent
video_events [] ts = []
video_events (n ∷ ns) ts =
    let key = contains_keyframe (n ∷ ns) in
    let tag =
      avc_tag (ts / 90) (if key then key_frame else inter_frame) avc_nalu 0
        (avcc_from_nals (n ∷ ns)) in
    (if key then reset ∷ [] else []) ++ write (video tag) ∷ []

unfoldable pub handle_video_rtp : Ingest → RtpPacket → Ingest × List RoomEvent
unfolding video_events
handle_video_rtp i pkt =
    let pushed = push i.video_ra pkt in
    (record i { video_ra = pushed.0 }, video_events pushed.1 pushed.2)

unfoldable pub audio_events : ℕ → ℕ → List Bytes → List RoomEvent
audio_events ts chans [] = []
audio_events ts chans (f ∷ fs) =
    write (audio (aac_tag ts chans aac_raw f)) ∷ audio_events ts chans fs

unfoldable pub handle_audio_rtp : Ingest → RtpPacket → List RoomEvent
unfolding audio_events
handle_audio_rtp i pkt =
    let rate = if i.audio_rate == 0 then 44100 else i.audio_rate in
    audio_events (pkt.timestamp * 1000 / rate % 2 ^ 32) i.audio_chans (aac_au_extract pkt.payload)

unfoldable pub is_channel : Option ℕ → ℕ → Bool
is_channel none k = false
is_channel (some c) k = c == k

unfoldable pub route : Ingest → ℕ → RtpPacket → Ingest × List RoomEvent
unfolding is_channel handle_video_rtp handle_audio_rtp
route i channel pkt =
    if is_channel i.video_ch channel
    then handle_video_rtp i pkt
    else if is_channel i.audio_ch channel
    then (i, handle_audio_rtp i pkt)
    else (i, [])

unfoldable pub handle_interleaved : Ingest → ℕ → Bytes → Ingest × List RoomEvent
unfolding route
handle_interleaved i channel payload = elim (parse_rtp payload) [
  | malformed e ↦ (i, [])
  | parsed pkt ↦ route i channel pkt
]
