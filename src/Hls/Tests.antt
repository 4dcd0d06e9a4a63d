-- ===== src/Hls/Tests.antt =====
-- Tests of the segmenter's parts (libhls).
use ggmpeg.Prelude.{ℕ, ◌≡◌, refl, inr, true, false, some, List, [], ◌∷◌, arith}
use ggmpeg.Srt.Demux.{Demuxer, feed}
use ggmpeg.Hls.Tables.{write_psi, tuned, feed-write_psi}
use ggmpeg.Hls.{Align, align, align_all, raster, is_near, align_all-raster}

-- Three frames of 1024 samples at 48 kHz, each a little off.
abbrev second_frame : Align
second_frame = record { frame_num = 1; frame_base = 90000 }

abbrev stamps : List ℕ
stamps = 91890 ∷ 93900 ∷ 95700 ∷ []

stamps_near : is_near 91920 1920 stamps ≡ true
unfolding is_near
stamps_near = refl

align_all-raster_example : align_all second_frame 1920 stamps ≡ raster 91920 1920 3
align_all-raster_example =
    align_all-raster second_frame 1920 91920 stamps refl stamps_near (omega arith) (omega arith)

-- A gap starts a new raster.
align_gap : align second_frame 180000 1920 ≡ (record { frame_num = 1; frame_base = 180000 }, 180000)
unfolding align
align_gap = refl

abbrev idle : Demuxer
idle = record {
  pmt_pid = 0;
  video_pid = 0;
  audio_pid = 0;
  video_buf = [];
  video_ts = 0;
  video_dts = 0;
  audio_buf = [];
  audio_ts = 0;
  has_on_video = true;
  has_on_audio = true;
}

feed-write_psi_example : feed (write_psi false 0x24 (λ pid. 7)) idle ≡ some (tuned idle, [])
feed-write_psi_example = feed-write_psi false 0x24 (λ pid. 7) idle (inr refl)
