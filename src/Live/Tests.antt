-- ===== src/Live/Tests.antt =====
-- Concrete runs of the media paths, and the theorems at concrete inputs.
use ggmpeg.Prelude.{
  ◌+◌, ◌<◌, ◌≡◌, refl, true, false, none, some, [], ◌∷◌, ◌++◌, arith, replicate, Bytes, All,
}
use ggmpeg.Flv.{VideoTag, video, audio}
use ggmpeg.Rtsp.H264.{avcc_from_nals, contains_keyframe}
use ggmpeg.Rtsp.Rtp.{RtpPacker}
use ggmpeg.Dash.Dcr.{build_avc_sequence_header}
use ggmpeg.Aac.{AacHeader, parse_aac_header, adts}
use ggmpeg.Srt.Demux.{AccessUnit, AudioFrame}
use ggmpeg.Live.{
  set_video_header, set_audio_header, write_meta, reset, write, avc_tag, aac_tag, key_frame,
  avc_sequence_header, avc_nalu, aac_sequence_header, aac_raw,
}
use ggmpeg.Live.Relay.{send_video, Ingest}
use ggmpeg.Live.Relay.Video.{handle_all, handle_all-send_video}
use ggmpeg.Avc.{start_code}
use ggmpeg.Avc.Units.{IsUnit as IsAvcUnit}
use ggmpeg.Mpeg.Pes.{is_plain_stream, optional_header}
use ggmpeg.Mpeg.Frame.Arrival.{transmit}
use ggmpeg.Srt.Demux.{Demuxer, Event, flush_video, contains_annexb_keyframe, keyframe_loop}
use ggmpeg.Hls.{align}
use ggmpeg.Hls.Lift.{Lift, Lifted, cache_max_frames, video_pes, lift_frame, to_pes}
use ggmpeg.Hls.Lift.Video.{delimiter}
use ggmpeg.Hls.Lift.Frames.{held, lift_frames, stream_of, lift_frames-stream_of}
use ggmpeg.Live.Loop.{unit_of, announced, carried, on_video-to_pes}
use ggmpeg.Live.Annexb.{first_code, IsUnit, split_annexb, join_annexb, split_annexb-join_annexb}
use ggmpeg.Live.Bridge.{Bridge, on_video, on_audio}
use ggmpeg.Live.Bridge.Audio.{on_audio-adts}
use ggmpeg.Live.Bridge.Video.{on_video_first, on_videos, headers, sent, headers-on_videos}

abbrev sps : Bytes
sps = 0x67 ∷ 0x42 ∷ 0xc0 ∷ 0x1e ∷ 1 ∷ []

abbrev pps : Bytes
pps = 0x68 ∷ 0xce ∷ 0x3c ∷ 0x80 ∷ []

abbrev idr : Bytes
idr = 0x65 ∷ 0x88 ∷ 0 ∷ 0 ∷ 3 ∷ 1 ∷ []

abbrev later : Bytes
later = 0x41 ∷ 0x9a ∷ []

abbrev packer : RtpPacker
packer = record { payload_type = 96; ssrc = 0x1234; seq = 65535 }

abbrev ingest : Ingest
ingest = record {
  video_ch = some 0;
  audio_ch = some 2;
  video_ra = record { fu_buf = []; pending = []; pending_ts = 0 };
  audio_rate = 44100;
  audio_chans = 2;
}

abbrev tag : VideoTag
tag = avc_tag 1000 key_frame avc_nalu 40 (avcc_from_nals (idr ∷ later ∷ []))

handle_all-send_video_example :
    (handle_all ingest 0 (send_video packer tag).0).1
    ≡ reset
      ∷ write (video (avc_tag 1040 key_frame avc_nalu 0 (avcc_from_nals (idr ∷ later ∷ []))))
      ∷ []
unfolding avc_tag contains_keyframe
handle_all-send_video_example =
    handle_all-send_video ingest 0 packer tag idr (later ∷ []) refl refl refl
      (record { type_width = omega arith; seq_width = omega arith; ssrc_width = omega arith }) refl
      refl refl (ground arith) (ground arith) (omega arith)

units_are : All IsUnit (sps ∷ pps ∷ idr ∷ [])
unfolding first_code
units_are = ground arith

split_annexb-join_annexb_example :
    split_annexb (join_annexb (sps ∷ pps ∷ idr ∷ [])) ≡ sps ∷ pps ∷ idr ∷ []
split_annexb-join_annexb_example = split_annexb-join_annexb (sps ∷ pps ∷ idr ∷ []) units_are

-- A start code of three bytes, and bytes in front of the first code.
split_short_codes :
    split_annexb (9 ∷ 0 ∷ 0 ∷ 1 ∷ 0x65 ∷ 0 ∷ 0 ∷ 1 ∷ 0x41 ∷ []) ≡ (0x65 ∷ []) ∷ (0x41 ∷ []) ∷ []
unfolding split_annexb
split_short_codes = refl

abbrev fresh : Bridge
fresh = record {
  emitted_video = false;
  emitted_audio = false;
  cached_sps = none;
  cached_pps = none;
}

abbrev au : AccessUnit
au = record { pts = 180000; dts = 90000; key = true; nal = join_annexb (sps ∷ pps ∷ idr ∷ []) }

on_video_first_example :
    ((on_video fresh au).0.emitted_video ≡ true)
    × ((on_video fresh au).1
        ≡ set_video_header
            (avc_tag 0 key_frame avc_sequence_header 0 (build_avc_sequence_header sps pps))
          ∷ write_meta (
              video (avc_tag 0 key_frame avc_sequence_header 0 (build_avc_sequence_header sps pps)))
          ∷ reset
          ∷ write (video (avc_tag 1000 key_frame avc_nalu 1000 (avcc_from_nals (idr ∷ []))))
          ∷ [])
on_video_first_example =
    on_video_first fresh au [] sps pps (idr ∷ []) idr [] refl refl units_are (ground arith)
      (ground arith) (ground arith) (ground arith) refl (omega arith) (omega arith)

headers-on_videos_example :
    headers (on_videos fresh (au ∷ au ∷ [])).1 + 0
    ≡ sent (on_videos fresh (au ∷ au ∷ [])).0.emitted_video
headers-on_videos_example = headers-on_videos fresh (au ∷ au ∷ [])

-- The second access unit brings no header.
headers_once : headers (on_videos fresh (au ∷ au ∷ [])).1 ≡ 1
unfolding headers on_videos on_video split_annexb join_annexb
headers_once = refl

abbrev stereo : AacHeader
stereo = record { object_type = 2; sample_rate = 4; channel = 2 }

abbrev raw : Bytes
raw = 0x21 ∷ 0x10 ∷ 0x05 ∷ []

abbrev frame : AudioFrame
frame = record { pts = 90000; payload = adts stereo raw ++ raw }

on_audio-adts_example :
    (config : Bytes) × (parse_aac_header config ≡ some stereo)
    × ((on_audio fresh frame).0.emitted_audio ≡ true)
    × ((on_audio fresh frame).1
        ≡ set_audio_header (aac_tag 0 2 aac_sequence_header config)
          ∷ write_meta (audio (aac_tag 0 2 aac_sequence_header config))
          ∷ write (audio (aac_tag 1000 2 aac_raw raw))
          ∷ [])
on_audio-adts_example =
    on_audio-adts fresh frame stereo raw
      (record {
        some_type = omega arith;
        type_width = omega arith;
        rate_width = omega arith;
        channel_width = omega arith;
      })
      (omega arith) refl

-- A key frame that fills its first packet.
abbrev big_idr : Bytes
big_idr = 0x65 ∷ replicate 200 1

abbrev big_tag : VideoTag
big_tag = avc_tag 1000 key_frame avc_nalu 40 (avcc_from_nals (big_idr ∷ later ∷ []))

abbrev lift : Lift
lift = record {
  stream_type = 0x1b;
  specific_info = start_code ++ (sps ++ (start_code ++ pps));
  ah = stereo;
  align = record { frame_num = 0; frame_base = 0 };
  cache = record { num = 0; offset = 0; pts = 0; buf = [] };
}

abbrev receiver : Demuxer
receiver = record {
  pmt_pid = 0x1001;
  video_pid = 0x0100;
  audio_pid = 0x0101;
  video_buf = [];
  video_ts = 0;
  video_dts = 0;
  audio_buf = [];
  audio_ts = 0;
  has_on_video = true;
  has_on_audio = true;
}

big_units : All IsUnit (sps ∷ pps ∷ big_idr ∷ later ∷ [])
unfolding first_code
big_units = ground arith

big_prefixes : All IsAvcUnit (big_idr ∷ later ∷ [])
big_prefixes = (
  record { not_empty = omega arith; length_fits = omega arith },
  (record { not_empty = omega arith; length_fits = omega arith }, tt),
)

on_video-to_pes_example :
    (l : Lifted) × (d' : Demuxer) × ((to_pes lift (video big_tag)).1 ≡ some l)
    × (transmit 1000 l.video_key (λ _. 0) l.pes l.pes.dts receiver ≡ some (d', []))
    × ((flush_video d').1 ≡ Event.on_video (unit_of l.pes) ∷ [])
    × ((on_video fresh (unit_of l.pes)).1
        ≡ announced sps pps (unit_of l.pes).key 1000 40 (delimiter ∷ big_idr ∷ later ∷ []))
unfolding avc_tag video_pes join_annexb optional_header is_plain_stream
on_video-to_pes_example =
    on_video-to_pes lift receiver fresh (λ _. 0) 1000 big_tag sps pps big_idr (later ∷ []) refl refl
      refl refl big_prefixes (omega arith) refl (ground arith) big_units (ground arith)
      (ground arith) (omega arith) refl refl (record { video = refl; other = refl }) refl
      (omega arith)

-- The demultiplexer finds the IDR unit.
big_key : (unit_of (carried big_tag sps pps big_idr (later ∷ [])).pes).key ≡ true
unfolding video_pes join_annexb contains_annexb_keyframe keyframe_loop
big_key = refl

-- Seven frames: six go out, and the cache holds one.
lift_frames-stream_of_example :
    ((lift_frames lift (replicate 7 (9000, raw))).0.cache.num < cache_max_frames)
    × ((lift_frames lift (replicate 7 (9000, raw))).1
          ++ held (lift_frames lift (replicate 7 (9000, raw))).0.cache
        ≡ held lift.cache ++ stream_of stereo (replicate 7 (9000, raw)))
lift_frames-stream_of_example = lift_frames-stream_of lift (replicate 7 (9000, raw)) (omega arith)

lift_frames-seven : (lift_frames lift (replicate 7 (9000, raw))).0.cache.num ≡ 1
unfolding lift_frames lift_frame align
lift_frames-seven = refl
