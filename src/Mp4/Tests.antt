-- ===== src/Mp4/Tests.antt =====
-- A fragment of two samples, and a decoder configuration.
use ggmpeg.Prelude.{◌-◌, ◌^◌, ◌≡◌, refl, true, false, some, [], ◌∷◌, arith, length}
use ggmpeg.Mp4.Media.{
  Sample, MediaSegmentParams, build_media_segment, all_payloads, build_segment_type,
}
use ggmpeg.Mp4.Box.{box_bytes}
use ggmpeg.Mp4.Playback.{IsSegment, play, payloads, play-build_media_segment}

abbrev key : Sample
key = record {
  duration = 3000;
  size = 3;
  is_key = true;
  composition_time_offset = 0;
  payload = 1 ∷ 2 ∷ 3 ∷ [];
}

abbrev inter : Sample
inter = record {
  duration = 3000;
  size = 2;
  is_key = false;
  composition_time_offset = 2 ^ 32 - 3000;
  payload = 4 ∷ 5 ∷ [];
}

abbrev two_samples : MediaSegmentParams
two_samples = record {
  track_id = 1;
  sequence_number = 7;
  base_decode_time = 90000;
  samples = key ∷ inter ∷ [];
}

two_samples-IsSegment : IsSegment two_samples
unfolding all_payloads
two_samples-IsSegment = record {
  samples_lem = (
    record { size_lem = refl; size_fits = omega arith },
    (record { size_lem = refl; size_fits = omega arith }, tt),
  );
  not_empty = omega arith;
  size_fits = omega arith;
}

play-build_media_segment_example :
    play (build_media_segment two_samples) ≡ some (payloads (key ∷ inter ∷ []))
play-build_media_segment_example = play-build_media_segment two_samples two_samples-IsSegment

payloads_run : payloads (key ∷ inter ∷ []) ≡ (1 ∷ 2 ∷ 3 ∷ []) ∷ (4 ∷ 5 ∷ []) ∷ []
unfolding payloads
payloads_run = refl

length-build_segment_type : length build_segment_type ≡ 24
unfolding build_segment_type box_bytes
length-build_segment_type = refl
