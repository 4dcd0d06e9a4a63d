-- ===== src/Avc/Tests.antt =====
-- A key frame with its parameter sets, and the decoder configuration of one.
use ggmpeg.Prelude.{◌≡◌, refl, inr, false, none, List, [], ◌∷◌, ◌++◌, arith, Bytes, All}
use ggmpeg.Rtsp.H264.{avcc_from_nals}
use ggmpeg.Avc.{nalu_aud, start_code, get_annexb_h264, parse_specific_info}
use ggmpeg.Avc.Units.{IsUnit, byte_stream}
use ggmpeg.Avc.Stream.{keep, is_coded, is_set, sets_or, get_annexb_h264-key_frame}
use ggmpeg.Live.Annexb.{join_annexb}

abbrev nals : List Bytes
nals = (0x68 ∷ 2 ∷ []) ∷ (0x65 ∷ 3 ∷ 4 ∷ []) ∷ (0x61 ∷ []) ∷ []

abbrev sps : Bytes
sps = 0x67 ∷ 1 ∷ []

nals-IsUnit : All IsUnit (sps ∷ nals)
nals-IsUnit = (
  record { not_empty = omega arith; length_fits = omega arith },
  (
    record { not_empty = omega arith; length_fits = omega arith },
    (
      record { not_empty = omega arith; length_fits = omega arith },
      (record { not_empty = omega arith; length_fits = omega arith }, tt),
    ),
  ),
)

get_annexb_h264-key_frame_example :
    ((get_annexb_h264 [] (avcc_from_nals (sps ∷ nals))).0.out
      ≡ nalu_aud
        ++ (join_annexb []
            ++ (join_annexb (sps ∷ (0x68 ∷ 2 ∷ []) ∷ [])
                ++ join_annexb ((0x65 ∷ 3 ∷ 4 ∷ []) ∷ (0x61 ∷ []) ∷ []))))
    × ((get_annexb_h264 [] (avcc_from_nals (sps ∷ nals))).1 ≡ none)
unfolding keep is_coded is_set sets_or
get_annexb_h264-key_frame_example =
    get_annexb_h264-key_frame [] (0x65 ∷ 3 ∷ 4 ∷ []) (sps ∷ (0x68 ∷ 2 ∷ []) ∷ []) ((0x61 ∷ []) ∷ [])
      nals-IsUnit (ground arith) refl

byte_stream_run :
    byte_stream [] [] false (sps ∷ nals)
    ≡ start_code
      ++ ((0x67 ∷ 1 ∷ [])
          ++ (start_code
              ++ ((0x68 ∷ 2 ∷ [])
                  ++ (start_code ++ ((0x65 ∷ 3 ∷ 4 ∷ []) ++ (start_code ++ (0x61 ∷ [])))))))
unfolding byte_stream
byte_stream_run = refl

parse_specific_info_run :
    parse_specific_info
      (1 ∷ 66 ∷ 0 ∷ 30 ∷ 0xff ∷ 0xe1 ∷ 0 ∷ 2 ∷ 0x67 ∷ 1 ∷ 1 ∷ 0 ∷ 2 ∷ 0x68 ∷ 2 ∷ [])
    ≡ inr (start_code ++ ((0x67 ∷ 1 ∷ []) ++ (start_code ++ (0x68 ∷ 2 ∷ []))))
unfolding parse_specific_info
parse_specific_info_run = refl
