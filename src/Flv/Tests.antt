-- ===== src/Flv/Tests.antt =====
-- Concrete runs of the tag models, and the theorems at concrete inputs.
use ggmpeg.Prelude.{◌≡◌, refl, some, [], ◌∷◌, arith, Bytes, IsByte, All}
use ggmpeg.Flv.{
  TagBase, VideoTag, AudioTag, parse_video_tag, marshal_video_tag, parse_audio_tag,
  has_packet_header, has_packet_type, meta, tag_type, marshal_tag, tag_base, flv_write,
}
use ggmpeg.Flv.RoundTrip.{FitsVideo, FitsAudio, parse_video_tag-marshal_video_tag}

abbrev base : TagBase
base = record { tag_type = 9; data_size = 0; timestamp = 40; stream_id = 0 }

abbrev key_tag : VideoTag
key_tag = record {
  base = base;
  frame_type = 1;
  codec_id = 7;
  video_data = 0x65 ∷ 0x88 ∷ [];
  avc_packet_type = 1;
  cts = 80;
}

key_tag-FitsVideo : FitsVideo key_tag
unfolding has_packet_header
key_tag-FitsVideo = record {
  frame_fits = omega arith;
  codec_fits = omega arith;
  cts_fits = omega arith;
  no_header = λ e. cc;
}

parse_video_tag-marshal_video_tag_example :
    parse_video_tag base (marshal_video_tag key_tag) ≡ some key_tag
parse_video_tag-marshal_video_tag_example =
    parse_video_tag-marshal_video_tag key_tag key_tag-FitsVideo

abbrev frame : AudioTag
frame = record {
  base = base;
  sound_format = 10;
  sound_rate = 3;
  sound_size = 1;
  sound_type = 1;
  sound_data = 0x21 ∷ [];
  aac_packet_type = 1;
}

frame-FitsAudio : FitsAudio frame
unfolding has_packet_type
frame-FitsAudio = record {
  format_fits = omega arith;
  rate_fits = omega arith;
  size_fits = omega arith;
  type_fits = omega arith;
  no_type = λ e. cc;
  has_data = λ e. cc;
}

abbrev video_body : Bytes
video_body = 0x17 ∷ 1 ∷ 0 ∷ 0 ∷ 80 ∷ 0x65 ∷ 0x88 ∷ []

video_body-IsByte : All IsByte video_body
video_body-IsByte = ground arith

parse_video_body : parse_video_tag base video_body ≡ some key_tag
unfolding parse_video_tag has_packet_header
parse_video_body = refl

abbrev audio_body : Bytes
audio_body = 0xaf ∷ 1 ∷ 0x21 ∷ []

audio_body-IsByte : All IsByte audio_body
audio_body-IsByte = ground arith

parse_audio_body : parse_audio_tag base audio_body ≡ some frame
unfolding parse_audio_tag has_packet_type
parse_audio_body = refl

-- A tag of one byte of script data, later than 2 ^ 24 milliseconds.
flv_write-meta :
    flv_write (meta (record base { timestamp = 0x01020304 }) (2 ∷ []))
    ≡ 18 ∷ 0 ∷ 0 ∷ 1 ∷ 2 ∷ 3 ∷ 4 ∷ 1 ∷ 0 ∷ 0 ∷ 0 ∷ 2 ∷ 0 ∷ 0 ∷ 0 ∷ 12 ∷ []
unfolding flv_write tag_type marshal_tag tag_base
flv_write-meta = refl
