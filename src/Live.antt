-- ===== src/Live.antt =====
-- The media paths of the endpoints in librtmp, between a peer and a room: Relay is RTSP, out of a room
-- (rtsp_server.go) and into one (rtsp_ingest.go); Annexb and Bridge are SRT into a room (srt_server.go).
-- The broadcast of a room (GOP) is outside the repository, so what an endpoint does to its room is a
-- list of events; sockets are outside too, and every write succeeds.
use ggmpeg.Prelude.{
  ℕ, zero, suc, ◌+◌, ◌-◌, ◌*◌, ◌/◌, ◌%◌, ◌^◌, ◌≤◌, ◌<◌, ◌≡◌, refl, sym, ap, ◌∙◌, ◌≢◌, ◌↔◌, ◌⊎◌, inl,
  inr, Bool, true, false, not, ◌&&◌, ◌||◌, Option, none, some, List, [], ◌∷◌, ◌++◌, append-nil,
  append_assoc, arith, ltb, leb, ◌==◌, if◌then◌else◌, ltb→lt, lt→ltb, leb→le, le→leb, leb-false→lt,
  ltb-false→le, ==_iff, tests, Bool-cases, Option-cases, length, get_elem?, set, length-append,
  get_or, take, drop, replicate, take-append-drop, length-take, length-drop, length-replicate,
  take-append_left, drop-append_left, take_whole, drop_whole, drop-append_past, take-append_past,
  Bytes, IsByte, All, All-append, at, has_bit, put_be16, put_be24, put_be32, be16_at, be24_at,
  be32_at,
}
use ggmpeg.Flv.{
  TagBase, VideoTag, AudioTag, Tag, video, audio, video_tag_type, audio_tag_type, flv_video_avc,
  flv_audio_aac,
}
pub mod Relay
pub mod Annexb
pub mod Bridge
pub mod Loop
mod Tests

-- setVideoSequenceHeader, setAudioSequenceHeader, GOP.WriteMeta, GOP.Reset and GOP.Write.
pub data RoomEvent : Type 0 where
  set_video_header : VideoTag → RoomEvent
  set_audio_header : AudioTag → RoomEvent
  write_meta : Tag → RoomEvent
  reset : RoomEvent
  write : Tag → RoomEvent

abbrev pub key_frame : ℕ
key_frame = 1

abbrev pub inter_frame : ℕ
inter_frame = 2

abbrev pub avc_sequence_header : ℕ
avc_sequence_header = 0

abbrev pub avc_nalu : ℕ
avc_nalu = 1

abbrev pub aac_sequence_header : ℕ
aac_sequence_header = 0

abbrev pub aac_raw : ℕ
aac_raw = 1

-- A tag of H.264; `DataSize` is set to the length of the data behind it.
unfoldable pub avc_tag : ℕ → ℕ → ℕ → ℕ → Bytes → VideoTag
avc_tag timestamp frame_type packet_type cts b = record {
  base = record {
    tag_type = video_tag_type;
    data_size = length b % 2 ^ 32;
    timestamp = timestamp;
    stream_id = 0;
  };
  frame_type = frame_type;
  codec_id = flv_video_avc;
  video_data = b;
  avc_packet_type = packet_type;
  cts = cts;
}

-- A tag of AAC, at 44.1 kHz and 16 bits by the header, mono for one channel.
unfoldable pub aac_tag : ℕ → ℕ → ℕ → Bytes → AudioTag
aac_tag timestamp channels packet_type b = record {
  base = record {
    tag_type = audio_tag_type;
    data_size = length b % 2 ^ 32;
    timestamp = timestamp;
    stream_id = 0;
  };
  sound_format = flv_audio_aac;
  sound_rate = 3;
  sound_size = 1;
  sound_type = if channels == 1 then 0 else 1;
  sound_data = b;
  aac_packet_type = packet_type;
}
