-- ===== src/Flv/Canonical.antt =====
-- Marshalling a tag body that was parsed (libflv/audio.go, libflv/video.go).
use ggmpeg.Prelude.{◌≡◌, some, [], ◌∷◌, arith, Bytes, IsByte, All}
use ggmpeg.Flv.{
  TagBase, VideoTag, AudioTag, parse_video_tag, marshal_video_tag, parse_audio_tag,
  marshal_audio_tag,
}

-- A video tag body of bytes that `ParseVideoTag` accepts is what `Marshal` writes for the result.
pub marshal_video_tag-parse_video_tag :
    (tb : TagBase) (b : Bytes) (v : VideoTag)
    → All IsByte b
    → parse_video_tag tb b ≡ some v
    → marshal_video_tag v ≡ b
unfolding parse_video_tag marshal_video_tag
marshal_video_tag-parse_video_tag tb [] v h e = cc
marshal_video_tag-parse_video_tag tb (b ∷ []) v h e = ground arith
marshal_video_tag-parse_video_tag tb (b ∷ b1 ∷ []) v h e = ground arith
marshal_video_tag-parse_video_tag tb (b ∷ b1 ∷ b2 ∷ []) v h e = ground arith
marshal_video_tag-parse_video_tag tb (b ∷ b1 ∷ b2 ∷ b3 ∷ []) v h e = ground arith
marshal_video_tag-parse_video_tag tb (b ∷ b1 ∷ b2 ∷ b3 ∷ b4 ∷ rest) v h e = ground arith

-- An audio tag body of bytes that `ParseAudioTag` accepts is what `Marshal` writes for the result.
pub marshal_audio_tag-parse_audio_tag :
    (tb : TagBase) (b : Bytes) (a : AudioTag)
    → All IsByte b
    → parse_audio_tag tb b ≡ some a
    → marshal_audio_tag a ≡ b
unfolding parse_audio_tag marshal_audio_tag
marshal_audio_tag-parse_audio_tag tb [] a h e = cc
marshal_audio_tag-parse_audio_tag tb (b ∷ []) a h e = cc
marshal_audio_tag-parse_audio_tag tb (b ∷ b1 ∷ rest) a h e = ground arith
