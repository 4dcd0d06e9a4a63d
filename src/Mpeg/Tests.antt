-- ===== src/Mpeg/Tests.antt =====
-- Tests of the transport stream writer (libmpeg).
use ggmpeg.Prelude.{ℕ, ◌≡◌, refl, true, false, some, [], ◌∷◌, arith, replicate}
use ggmpeg.Mpeg.Crc.{crc32, crc_loop, crc_table}
use ggmpeg.Mpeg.Pes.{Pes, is_plain_stream, optional_header}
use ggmpeg.Mpeg.Frame.Demux.{IsReceiver}
use ggmpeg.Mpeg.Frame.Demux.First.{IsNew, received, flushed}
use ggmpeg.Mpeg.Frame.Arrival.{transmit, feed-write_frame}
use ggmpeg.Srt.Demux.{Demuxer}

abbrev counters : ℕ → ℕ
counters pid = 3

abbrev sent_pes : Pes
sent_pes = record {
  packet_start_code_prefix = 1;
  stream_id = 0xe0;
  stream_type = 0x1b;
  pes_packet_length = 0;
  pts = 9000;
  dts = 6000;
  payload = replicate 200 0x41;
  index = 0;
  header_data = [];
  header_index = 0;
}

video_stream : is_plain_stream sent_pes.stream_id ≡ false
unfolding is_plain_stream
video_stream = refl

sent_pes-IsNew : IsNew sent_pes
sent_pes-IsNew = record {
  index_zero = refl;
  header_none = refl;
  prefix_one = refl;
  has_stamps = video_stream;
  pts_lt = omega arith;
  dts_lt = omega arith;
  has_payload = omega arith;
}

abbrev tuned : Demuxer
tuned = record {
  pmt_pid = 0x1001;
  video_pid = 0x100;
  audio_pid = 0x101;
  video_buf = 0 ∷ 0 ∷ 1 ∷ 0x41 ∷ 0x9a ∷ [];
  video_ts = 3000;
  video_dts = 3000;
  audio_buf = [];
  audio_ts = 0;
  has_on_video = true;
  has_on_audio = true;
}

tuned-IsReceiver : IsReceiver tuned
tuned-IsReceiver = record { video = refl; other = refl }

feed-write_frame_example :
    transmit 300 true counters sent_pes 6000 tuned
    ≡ some (received sent_pes sent_pes.payload tuned, flushed tuned)
unfolding optional_header is_plain_stream
feed-write_frame_example =
    feed-write_frame 300 true counters sent_pes 6000 tuned sent_pes-IsNew tuned-IsReceiver refl
      (omega arith)

-- The check value of the MPEG-2 CRC.
crc_of_digits :
    crc32 (0x31 ∷ 0x32 ∷ 0x33 ∷ 0x34 ∷ 0x35 ∷ 0x36 ∷ 0x37 ∷ 0x38 ∷ 0x39 ∷ []) ≡ 0x0376e6e7
unfolding crc32 crc_loop crc_table
crc_of_digits = refl
