-- ===== src/Flv/RoundTrip.antt =====
-- Parsing what the tag marshallers write (libflv/audio.go, libflv/video.go).
use ggmpeg.Prelude.{
  ◌+◌, ◌*◌, ◌/◌, ◌%◌, ◌^◌, ◌<◌, ◌≡◌, inl, inr, false, some, arith, Bool-cases, length,
}
use ggmpeg.Flv.{
  VideoTag, AudioTag, has_packet_header, has_packet_type, parse_video_tag, marshal_video_tag,
  parse_audio_tag, marshal_audio_tag,
}

-- The widths of the fields; where the codec has no packet header its fields are unset.
pub record FitsVideo (v : VideoTag) : Type 0 where
  pub frame_fits : v.frame_type < 2 ^ 4
  pub codec_fits : v.codec_id < 2 ^ 4
  pub cts_fits : v.cts < 2 ^ 24
  pub no_header : has_packet_header v.codec_id ≡ false → (v.avc_packet_type ≡ 0) × (v.cts ≡ 0)

-- `ParseVideoTag` of what `Marshal` writes gives the tag back, for a codec with a packet header and
-- for one without, if the fields have their widths and those that the codec does not use are 0.
pub parse_video_tag-marshal_video_tag :
    (v : VideoTag) → FitsVideo v → parse_video_tag v.base (marshal_video_tag v) ≡ some v
unfolding parse_video_tag marshal_video_tag
parse_video_tag-marshal_video_tag v f =
    let first = v.frame_type * 2 ^ 4 % 256 + v.codec_id % 2 ^ 4 in
    let codec : first % 2 ^ 4 ≡ v.codec_id = omega arith in
    elim (Bool-cases (has_packet_header v.codec_id)) [
      | inl e ↦ rw (codec, e) (ground arith)
      | inr e ↦ rw (codec, e) (ground arith)
    ]

pub record FitsAudio (a : AudioTag) : Type 0 where
  pub format_fits : a.sound_format < 2 ^ 4
  pub rate_fits : a.sound_rate < 2 ^ 2
  pub size_fits : a.sound_size < 2
  pub type_fits : a.sound_type < 2
  pub no_type : has_packet_type a.sound_format ≡ false → a.aac_packet_type ≡ 0
  pub has_data : has_packet_type a.sound_format ≡ false → 0 < length a.sound_data

-- `ParseAudioTag` of what `Marshal` writes gives the tag back, for a format with a packet type and
-- for one without, if the fields have their widths, the unused one is 0, and a tag without a packet
-- type is not empty.
pub parse_audio_tag-marshal_audio_tag :
    (a : AudioTag) → FitsAudio a → parse_audio_tag a.base (marshal_audio_tag a) ≡ some a
unfolding parse_audio_tag marshal_audio_tag
parse_audio_tag-marshal_audio_tag a f =
    let first =
      a.sound_format * 2 ^ 4 % 256
      + a.sound_rate % 2 ^ 2 * 2 ^ 2
      + a.sound_size % 2 * 2
      + a.sound_type % 2 in
    let format : first / 2 ^ 4 ≡ a.sound_format = omega arith in
    elim (Bool-cases (has_packet_type a.sound_format)) [
      | inl e ↦ rw (format, e) (ground arith)
      | inr e ↦ rw (format, e) (ground arith)
    ]
