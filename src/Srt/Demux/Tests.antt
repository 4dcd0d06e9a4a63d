-- ===== src/Srt/Demux/Tests.antt =====
-- Tests of the demultiplexer (libsrt/tsdemux.go).
use ggmpeg.Prelude.{◌≡◌, refl, true, false, some, [], ◌∷◌, replicate, Bytes}
use ggmpeg.Srt.Demux.{
  Demuxer, contains_annexb_keyframe, keyframe_loop, feed, feed_loop, feed_packet, feed_payload,
  payload_of,
}

abbrev idle : Demuxer
idle = record {
  pmt_pid = 0;
  video_pid = 0;
  audio_pid = 0;
  video_buf = [];
  video_ts = 0;
  video_dts = 0;
  audio_buf = [];
  audio_ts = 0;
  has_on_video = true;
  has_on_audio = true;
}

abbrev short_section : Bytes
short_section = 7 ∷ 2 ∷ 0xb0 ∷ []

abbrev idr_unit : Bytes
idr_unit = 0 ∷ 0 ∷ 0 ∷ 1 ∷ 0x09 ∷ 0xf0 ∷ 0 ∷ 0 ∷ 1 ∷ 0x65 ∷ 0x88 ∷ []

idr_unit_found : contains_annexb_keyframe idr_unit ≡ true
unfolding contains_annexb_keyframe keyframe_loop
idr_unit_found = refl

-- A slice unit is no key frame.
slice_unit_passed : contains_annexb_keyframe (0 ∷ 0 ∷ 1 ∷ 0x41 ∷ 0x9a ∷ []) ≡ false
unfolding contains_annexb_keyframe keyframe_loop
slice_unit_passed = refl

-- A packet of another PID, and a datagram that does not start with the sync byte.
feed_other_pid : feed (0x47 ∷ 0x01 ∷ 0x23 ∷ 0x10 ∷ replicate 184 0xff) idle ≡ some (idle, [])
unfolding feed feed_loop feed_packet feed_payload payload_of
feed_other_pid = refl
