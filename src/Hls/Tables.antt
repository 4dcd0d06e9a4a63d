-- ===== src/Hls/Tables.antt =====
-- The tables of a segment (libhls/hls.go), written by libmpeg and read by libsrt/tsdemux.go.
use ggmpeg.Prelude.{
  ℕ, ◌+◌, ◌/◌, ◌%◌, ◌^◌, ◌≤◌, ◌≡◌, refl, ◌⊎◌, inl, inr, Bool, true, false, Option, none, some, [],
  ◌∷◌, ◌++◌, append-nil, arith, if◌then◌else◌, length, drop, Bytes, at,
}
use ggmpeg.Mpeg.Frame.Demux.{feed_loop-enough, feed_loop-nil}
use ggmpeg.Mpeg.Crc.{crc32, crc_loop, crc_table}
use ggmpeg.Mpeg.Psi.{
  Pat, Pmt, pat_bytes, pat_entry_bytes, marshal_pat, pmt_bytes, pmt_stream_bytes, stream_type_of,
  marshal_pmt,
}
use ggmpeg.Mpeg.Ts.{ts_pat_pid, ts_pmt_pid, ts_audio_pid, ts_video_pid, new_ts, ts_header, add_pcr}
use ggmpeg.Mpeg.Mux.{
  section, mux, prepare, remain_psi, write_adaptation, pointer_field, marshal_psi,
}
use ggmpeg.Srt.Demux.{
  Demuxer, feed, feed_loop, feed_packet, feed_payload, payload_of, parse_pat, pat_loop, parse_pmt,
  pmt_loop, set_stream,
}

-- The PAT of a segment, with the program of its PMT.
abbrev pub new_pat : Pat
new_pat = record {
  table_id = 0x00;
  section_syntax_indicator = 0x01;
  section_length = 0x0d;
  transport_stream_id = 0x01;
  version_number = 0x00;
  current_next_indicator = 0x01;
  section_number = 0x00;
  last_section_number = 0x00;
  pmts = (ts_pmt_pid, 0x01) ∷ [];
}

-- The PMT, with its two streams in the order in which the map is visited.
abbrev pub new_pmt : Bool → ℕ → Pmt
new_pmt audio_first video_stream_type =
    let audio : ℕ × (ℕ × ℕ) = (ts_audio_pid, (0x0f, 0xc0)) in
    let video : ℕ × (ℕ × ℕ) = (ts_video_pid, (video_stream_type, 0xe0)) in
    record {
      table_id = 0x02;
      section_syntax_indicator = 0x01;
      section_length = 0x17;
      program_number = 0x01;
      version_number = 0x00;
      current_next_indicator = 0x01;
      section_number = 0x00;
      last_section_number = 0x00;
      pcr_pid = ts_video_pid;
      program_info_length = 0x00;
      streams = if audio_first then audio ∷ video ∷ [] else video ∷ audio ∷ [];
    }

-- A table in a packet of its PID.
unfoldable pub table_packet : ℕ → (ℕ → ℕ) → Option Bytes → Bytes
table_packet pid counters (some b) = (mux false 0 (section b) (new_ts pid counters true).0).bytes
table_packet pid counters none = []

unfoldable pub write_psi : Bool → ℕ → (ℕ → ℕ) → Bytes
write_psi audio_first video_stream_type counters =
    table_packet ts_pat_pid counters (marshal_pat new_pat 183)
    ++ table_packet ts_pmt_pid counters (marshal_pmt (new_pmt audio_first video_stream_type) 183)

payload_first :
    (pid_high pid_low counter : ℕ) (b : Bytes)
    → payload_of (0x47 ∷ pid_high ∷ pid_low ∷ (16 + counter % 2 ^ 4) ∷ b) ≡ some b
unfolding payload_of
payload_first pid_high pid_low counter b =
    let control : (16 + counter % 2 ^ 4) / 2 ^ 4 % 2 ^ 2 ≡ 1 = omega arith in rw control refl

-- A demultiplexer that knows the PIDs of a segment.
abbrev pub tuned : Demuxer → Demuxer
tuned d = record d { pmt_pid = ts_pmt_pid; video_pid = ts_video_pid; audio_pid = ts_audio_pid }

abbrev pat_packet : (ℕ → ℕ) → Bytes
pat_packet counters = table_packet ts_pat_pid counters (marshal_pat new_pat 183)

abbrev pmt_packet : Bool → ℕ → (ℕ → ℕ) → Bytes
pmt_packet audio_first t counters =
    table_packet ts_pmt_pid counters (marshal_pmt (new_pmt audio_first t) 183)

payload_pat :
    (counters : ℕ → ℕ) → payload_of (pat_packet counters) ≡ some (drop 4 (pat_packet counters))
unfolding table_packet mux prepare remain_psi write_adaptation pointer_field marshal_psi marshal_pat
    marshal_pmt pat_bytes pat_entry_bytes pmt_bytes pmt_stream_bytes stream_type_of crc32 crc_loop
    crc_table new_ts ts_header add_pcr
payload_pat counters = payload_first 0x40 0 (counters ts_pat_pid) (drop 4 (pat_packet counters))

feed_pat :
    (counters : ℕ → ℕ) (d : Demuxer)
    → feed_packet (pat_packet counters) d ≡ some (record d { pmt_pid = ts_pmt_pid }, [])
unfolding feed_packet feed_payload parse_pat pat_loop parse_pmt pmt_loop set_stream table_packet mux
    prepare remain_psi write_adaptation pointer_field marshal_psi marshal_pat marshal_pmt pat_bytes
    pat_entry_bytes pmt_bytes pmt_stream_bytes stream_type_of crc32 crc_loop crc_table new_ts
    ts_header add_pcr
feed_pat counters d = rw (payload_pat counters, feed_packet) refl

feed_h264 :
    (audio_first : Bool) (counters : ℕ → ℕ) (d : Demuxer)
    → d.pmt_pid ≡ ts_pmt_pid
    → feed_packet (pmt_packet audio_first 0x1b counters) d
      ≡ some (record d { video_pid = ts_video_pid; audio_pid = ts_audio_pid }, [])
unfolding feed_packet feed_payload parse_pat pat_loop parse_pmt pmt_loop set_stream table_packet mux
    prepare remain_psi write_adaptation pointer_field marshal_psi marshal_pat marshal_pmt pat_bytes
    pat_entry_bytes pmt_bytes pmt_stream_bytes stream_type_of crc32 crc_loop crc_table new_ts
    ts_header add_pcr
feed_h264 true counters d e =
    let chunk = drop 4 (pmt_packet true 0x1b counters) in
    let carried : payload_of (pmt_packet true 0x1b counters) ≡ some chunk =
      payload_first 0x50 1 (counters ts_pmt_pid) chunk in
    rw (carried, feed_packet, feed_payload, e) refl
feed_h264 false counters d e =
    let chunk = drop 4 (pmt_packet false 0x1b counters) in
    let carried : payload_of (pmt_packet false 0x1b counters) ≡ some chunk =
      payload_first 0x50 1 (counters ts_pmt_pid) chunk in
    rw (carried, feed_packet, feed_payload, e) refl

feed_h265 :
    (audio_first : Bool) (counters : ℕ → ℕ) (d : Demuxer)
    → d.pmt_pid ≡ ts_pmt_pid
    → feed_packet (pmt_packet audio_first 0x24 counters) d
      ≡ some (record d { video_pid = ts_video_pid; audio_pid = ts_audio_pid }, [])
unfolding feed_packet feed_payload parse_pat pat_loop parse_pmt pmt_loop set_stream table_packet mux
    prepare remain_psi write_adaptation pointer_field marshal_psi marshal_pat marshal_pmt pat_bytes
    pat_entry_bytes pmt_bytes pmt_stream_bytes stream_type_of crc32 crc_loop crc_table new_ts
    ts_header add_pcr
feed_h265 true counters d e =
    let chunk = drop 4 (pmt_packet true 0x24 counters) in
    let carried : payload_of (pmt_packet true 0x24 counters) ≡ some chunk =
      payload_first 0x50 1 (counters ts_pmt_pid) chunk in
    rw (carried, feed_packet, feed_payload, e) refl
feed_h265 false counters d e =
    let chunk = drop 4 (pmt_packet false 0x24 counters) in
    let carried : payload_of (pmt_packet false 0x24 counters) ≡ some chunk =
      payload_first 0x50 1 (counters ts_pmt_pid) chunk in
    rw (carried, feed_packet, feed_payload, e) refl

pat_sync : (counters : ℕ → ℕ) → at (pat_packet counters) 0 ≡ 0x47
unfolding table_packet mux prepare remain_psi write_adaptation pointer_field marshal_psi marshal_pat
    marshal_pmt pat_bytes pat_entry_bytes pmt_bytes pmt_stream_bytes stream_type_of crc32 crc_loop
    crc_table new_ts ts_header add_pcr
pat_sync counters = refl

pat_size : (counters : ℕ → ℕ) → length (pat_packet counters) ≡ 188
unfolding table_packet mux prepare remain_psi write_adaptation pointer_field marshal_psi marshal_pat
    marshal_pmt pat_bytes pat_entry_bytes pmt_bytes pmt_stream_bytes stream_type_of crc32 crc_loop
    crc_table new_ts ts_header add_pcr
pat_size counters = refl

h264_whole :
    (audio_first : Bool) (counters : ℕ → ℕ)
    → (at (pmt_packet audio_first 0x1b counters) 0 ≡ 0x47)
      × (length (pmt_packet audio_first 0x1b counters) ≡ 188)
unfolding table_packet mux prepare remain_psi write_adaptation pointer_field marshal_psi marshal_pat
    marshal_pmt pat_bytes pat_entry_bytes pmt_bytes pmt_stream_bytes stream_type_of crc32 crc_loop
    crc_table new_ts ts_header add_pcr
h264_whole true counters = (refl, refl)
h264_whole false counters = (refl, refl)

h265_whole :
    (audio_first : Bool) (counters : ℕ → ℕ)
    → (at (pmt_packet audio_first 0x24 counters) 0 ≡ 0x47)
      × (length (pmt_packet audio_first 0x24 counters) ≡ 188)
unfolding table_packet mux prepare remain_psi write_adaptation pointer_field marshal_psi marshal_pat
    marshal_pmt pat_bytes pat_entry_bytes pmt_bytes pmt_stream_bytes stream_type_of crc32 crc_loop
    crc_table new_ts ts_header add_pcr
h265_whole true counters = (refl, refl)
h265_whole false counters = (refl, refl)

feed_both :
    (audio_first : Bool) (t : ℕ) (counters : ℕ → ℕ) (d : Demuxer)
    → feed_packet (pmt_packet audio_first t counters) (record d { pmt_pid = ts_pmt_pid })
      ≡ some (tuned d, [])
    → at (pmt_packet audio_first t counters) 0 ≡ 0x47
    → length (pmt_packet audio_first t counters) ≡ 188
    → feed (write_psi audio_first t counters) d ≡ some (tuned d, [])
unfolding feed write_psi
feed_both audio_first t counters d e sync size =
    let pmt = pmt_packet audio_first t counters in
    let d1 : Demuxer = record d { pmt_pid = ts_pmt_pid } in
    let behind : (k : ℕ) → length pmt ≤ k → feed_loop k pmt d1 ≡ some (tuned d, []) = λ k h.
      rw append-nil at (
        feed_loop-enough k pmt [] d1 (tuned d) (tuned d) [] [] size sync e
          (λ i g. feed_loop-nil i (tuned d)) (rw append-nil h)) in
    feed_loop-enough (length (pat_packet counters ++ pmt)) (pat_packet counters) pmt d d1 (tuned d)
      [] [] (pat_size counters) (pat_sync counters) (feed_pat counters d) behind (omega arith)

-- The PAT and the PMT of a segment, in either order of the streams and for H.264 and H.265, tell a
-- demultiplexer in any state the PIDs of the PMT, of video and of audio, and change nothing else.
pub feed-write_psi :
    (audio_first : Bool) (video_stream_type : ℕ) (counters : ℕ → ℕ) (d : Demuxer)
    → (video_stream_type ≡ 0x1b) ⊎ (video_stream_type ≡ 0x24)
    → feed (write_psi audio_first video_stream_type counters) d ≡ some (tuned d, [])
feed-write_psi audio_first t counters d (inl e) =
    let (sync, size) = h264_whole audio_first counters in
    rw e (
      feed_both audio_first 0x1b counters d
        (feed_h264 audio_first counters (record d { pmt_pid = ts_pmt_pid }) refl) sync size)
feed-write_psi audio_first t counters d (inr e) =
    let (sync, size) = h265_whole audio_first counters in
    rw e (
      feed_both audio_first 0x24 counters d
        (feed_h265 audio_first counters (record d { pmt_pid = ts_pmt_pid }) refl) sync size)
