-- ===== src/Rtsp/Tests.antt =====
-- Concrete runs of librtsp's models, and the theorems at concrete inputs.
use ggmpeg.Prelude.{◌+◌, ◌%◌, ◌^◌, ◌≡◌, refl, true, List, [], ◌∷◌, arith, Bytes, All}
use ggmpeg.Rtsp.Rtp.{RtpPacker, parsed, pack, parse_rtp}
use ggmpeg.Rtsp.Rtp.RoundTrip.{parse_rtp-pack}
use ggmpeg.Rtsp.H264.{fragment_loop, pack_nal}
use ggmpeg.Rtsp.H264.Fragments.{IsWithin, pack_nal-IsWithin}
use ggmpeg.Rtsp.Reassembler.{Reassembler}
use ggmpeg.Rtsp.Reassembler.RoundTrip.{receive_unit}
use ggmpeg.Rtsp.Reassembler.Units.{pack_unit, receive_unit-pack_unit}

abbrev packer : RtpPacker
packer = record { payload_type = 96; ssrc = 0x1234; seq = 65535 }

parse_rtp-pack_example :
    (parse_rtp (pack packer true 90000 (1 ∷ 2 ∷ [])).0
      ≡ parsed (record {
        payload_type = 96;
        sequence_num = 65535;
        timestamp = 90000;
        ssrc = 0x1234;
        marker = true;
        payload = 1 ∷ 2 ∷ [];
      }))
    × ((pack packer true 90000 (1 ∷ 2 ∷ [])).1 ≡ record packer { seq = (65535 + 1) % 2 ^ 16 })
parse_rtp-pack_example =
    parse_rtp-pack packer true 90000 (1 ∷ 2 ∷ []) (omega arith) (omega arith) (omega arith)
      (omega arith)

-- Two bytes of payload and two of padding.
abbrev nals : List Bytes
nals = (0x67 ∷ 1 ∷ []) ∷ (0x65 ∷ 1 ∷ 2 ∷ 3 ∷ 4 ∷ 5 ∷ []) ∷ []

pack_nal-IsWithin_example : All (IsWithin 4) (pack_nal (0x65 ∷ 1 ∷ 2 ∷ 3 ∷ 4 ∷ 5 ∷ []) 4)
pack_nal-IsWithin_example = pack_nal-IsWithin (0x65 ∷ 1 ∷ 2 ∷ 3 ∷ 4 ∷ 5 ∷ []) 4

pack_nal_three :
    pack_nal (0x65 ∷ 1 ∷ 2 ∷ 3 ∷ 4 ∷ 5 ∷ []) 4
    ≡ (0x7c ∷ 0x85 ∷ 1 ∷ 2 ∷ []) ∷ (0x7c ∷ 0x05 ∷ 3 ∷ 4 ∷ []) ∷ (0x7c ∷ 0x45 ∷ 5 ∷ []) ∷ []
unfolding pack_nal fragment_loop
pack_nal_three = refl

abbrev idle : Reassembler
idle = record { fu_buf = []; pending = []; pending_ts = 0 }

receive_unit-pack_unit_example :
    receive_unit idle 90 (pack_unit 4 nals)
    ≡ (record { fu_buf = []; pending = []; pending_ts = 90 }, nals, 90)
receive_unit-pack_unit_example =
    receive_unit-pack_unit idle 90 4 (0x67 ∷ 1 ∷ []) ((0x65 ∷ 1 ∷ 2 ∷ 3 ∷ 4 ∷ 5 ∷ []) ∷ [])
      (omega arith) (omega arith) refl refl
