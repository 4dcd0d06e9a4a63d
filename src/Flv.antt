-- ===== src/Flv.antt =====
-- libflv/audio.go, video.go and flv.go: the bodies of audio and video tags, and the tag framing.
use ggmpeg.Prelude.{
  ℕ, zero, suc, ◌+◌, ◌-◌, ◌*◌, ◌/◌, ◌%◌, ◌^◌, ◌≤◌, ◌<◌, ◌≡◌, refl, sym, ap, ◌∙◌, ◌≢◌, ◌↔◌, ◌⊎◌, inl,
  inr, Bool, true, false, not, ◌&&◌, ◌||◌, Option, none, some, List, [], ◌∷◌, ◌++◌, append-nil,
  append_assoc, arith, ltb, leb, ◌==◌, if◌then◌else◌, ltb→lt, lt→ltb, leb→le, le→leb, leb-false→lt,
  ltb-false→le, ==_iff, tests, Bool-cases, Option-cases, length, get_elem?, set, length-append,
  get_or, take, drop, replicate, take-append-drop, length-take, length-drop, length-replicate,
  take-append_left, drop-append_left, take_whole, drop_whole, Bytes, IsByte, All, All-append, at,
  has_bit, put_be16, put_be24, put_be32, be16_at, be24_at, be32_at,
}
pub mod RoundTrip
pub mod Canonical
mod Tests

abbrev pub audio_tag_type : ℕ
audio_tag_type = 8

abbrev pub video_tag_type : ℕ
video_tag_type = 9

abbrev pub script_data_tag_type : ℕ
script_data_tag_type = 18

pub record TagBase : Type 0 where
  pub tag_type : ℕ
  pub data_size : ℕ
  pub timestamp : ℕ
  pub stream_id : ℕ

abbrev pub flv_video_avc : ℕ
flv_video_avc = 7

abbrev pub flv_video_hevc : ℕ
flv_video_hevc = 12

abbrev pub flv_video_av1 : ℕ
flv_video_av1 = 13

pub record VideoTag : Type 0 where
  pub base : TagBase
  pub frame_type : ℕ
  pub codec_id : ℕ
  pub video_data : Bytes
  pub avc_packet_type : ℕ
  pub cts : ℕ

-- The codecs with a packet type and a composition time.
unfoldable pub has_packet_header : ℕ → Bool
has_packet_header codec =
    codec == flv_video_avc || codec == flv_video_hevc || codec == flv_video_av1

unfoldable pub parse_video_tag : TagBase → Bytes → Option VideoTag
parse_video_tag tb b =
    let video : VideoTag = record {
      base = tb;
      frame_type = at b 0 / 2 ^ 4 % 2 ^ 4;
      codec_id = at b 0 % 2 ^ 4;
      video_data = drop 1 b;
      avc_packet_type = 0;
      cts = 0;
    } in
    if ltb (length b) 1
    then none
    else if has_packet_header (at b 0 % 2 ^ 4)
    then if ltb (length b) 5
      then none
      else some
          (record video { avc_packet_type = at b 1; cts = be24_at b 2; video_data = drop 5 b })
    else some video

unfoldable pub marshal_video_tag : VideoTag → Bytes
marshal_video_tag vt =
    (vt.frame_type * 2 ^ 4 % 256 + vt.codec_id % 2 ^ 4)
    ∷ (if has_packet_header vt.codec_id
        then vt.avc_packet_type ∷ (put_be24 vt.cts ++ vt.video_data)
        else vt.video_data)

abbrev pub flv_audio_aac : ℕ
flv_audio_aac = 10

abbrev pub flv_audio_opus : ℕ
flv_audio_opus = 13

pub record AudioTag : Type 0 where
  pub base : TagBase
  pub sound_format : ℕ
  pub sound_rate : ℕ
  pub sound_size : ℕ
  pub sound_type : ℕ
  pub sound_data : Bytes
  pub aac_packet_type : ℕ

-- The formats with a packet type.
unfoldable pub has_packet_type : ℕ → Bool
has_packet_type format = format == flv_audio_aac || format == flv_audio_opus

-- The second length check of the source cannot fail behind the first.
unfoldable pub parse_audio_tag : TagBase → Bytes → Option AudioTag
parse_audio_tag tb b =
    let audio : AudioTag = record {
      base = tb;
      sound_format = at b 0 / 2 ^ 4;
      sound_rate = at b 0 / 2 ^ 2 % 2 ^ 2;
      sound_size = at b 0 / 2 % 2;
      sound_type = at b 0 % 2;
      sound_data = drop 1 b;
      aac_packet_type = 0;
    } in
    if leb (length b) 1
    then none
    else if has_packet_type (at b 0 / 2 ^ 4)
    then if ltb (length b) 2
      then none
      else some (record audio { aac_packet_type = at b 1; sound_data = drop 2 b })
    else some audio

unfoldable pub marshal_audio_tag : AudioTag → Bytes
marshal_audio_tag a =
    (a.sound_format * 2 ^ 4 % 256
      + a.sound_rate % 2 ^ 2 * 2 ^ 2
      + a.sound_size % 2 * 2
      + a.sound_type % 2)
    ∷ (if has_packet_type a.sound_format then a.aac_packet_type ∷ a.sound_data else a.sound_data)

-- A tag's dynamic type. The script data of a MetaTag comes from the AMF encoder over the struct's
-- fields, so its bytes are given.
pub data Tag : Type 0 where
  audio : AudioTag → Tag
  video : VideoTag → Tag
  meta : TagBase → Bytes → Tag

unfoldable pub tag_type : Tag → ℕ
tag_type (audio a) = audio_tag_type
tag_type (video v) = video_tag_type
tag_type (meta b body) = script_data_tag_type

unfoldable pub marshal_tag : Tag → Bytes
marshal_tag (audio a) = marshal_audio_tag a
marshal_tag (video v) = marshal_video_tag v
marshal_tag (meta b body) = body

unfoldable pub tag_base : Tag → TagBase
tag_base (audio a) = a.base
tag_base (video v) = v.base
tag_base (meta b body) = b

-- Type, 24-bit size, the timestamp's low 24 bits and then its high 8, stream 0, the body, and the
-- size of all that as PreviousTagSize.
unfoldable pub flv_write : Tag → Bytes
flv_write tag =
    let body = marshal_tag tag in
    let ts = (tag_base tag).timestamp in
    let b : Bytes =
      tag_type tag
      ∷ (put_be24 (length body) ++ (put_be24 ts ++ ((ts / 2 ^ 24 % 256) ∷ 0 ∷ 0 ∷ 0 ∷ body))) in
    b ++ put_be32 (length b)
