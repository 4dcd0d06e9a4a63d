-- ===== src/Mpeg/Frame/Demux/First.antt =====
-- The header of a PES (libmpeg/pes.go), and the packet that starts it (libsrt/tsdemux.go).
use ggmpeg.Prelude.{
  ◌+◌, ◌^◌, ◌<◌, ◌≡◌, refl, inl, inr, true, false, some, List, [], ◌∷◌, ◌++◌, arith, ltb, ◌==◌,
  if◌then◌else◌, Bool-cases, length, Bytes, put_be16, put_be24,
}
use ggmpeg.Mpeg.Pes.{Pes, is_plain_stream, optional_header, packet_length_of, remain_pes}
use ggmpeg.Mpeg.Frame.Chunks.{IsFresh}
use ggmpeg.Srt.Demux.{Demuxer, Event, feed_video, flush_video, start_video, parse_pes_header}
use ggmpeg.Srt.Demux.Stamps.{parse_pes_header-remain_pes}

-- A PES as it is handed to the writer: nothing is written, and its header has stamps.
pub record IsNew (p : Pes) : Type 0 where
  pub index_zero : p.index ≡ 0
  pub header_none : p.header_index ≡ 0
  pub prefix_one : p.packet_start_code_prefix ≡ 1
  pub has_stamps : is_plain_stream p.stream_id ≡ false
  pub pts_lt : p.pts < 2 ^ 33
  pub dts_lt : p.dts < 2 ^ 33
  pub has_payload : 0 < length p.payload

-- The header that Remain builds.
abbrev pub header_of : Pes → Bytes
header_of p =
    put_be24 p.packet_start_code_prefix
    ++ (p.stream_id ∷ (put_be16 (packet_length_of p) ++ optional_header p.stream_id p.pts p.dts))

abbrev pub headed : Pes → Pes
headed p = record p { pes_packet_length = packet_length_of p; header_data = header_of p }

pub remain_pes-headed :
    (p : Pes) → p.index ≡ 0 → remain_pes p ≡ (headed p, length (header_of p) + length p.payload)
unfolding remain_pes
remain_pes-headed p h = let fresh : (p.index == 0) ≡ true = ground arith in rw fresh refl

pub length-header_of :
    (p : Pes) → IsNew p → (0 < length (header_of p)) × (length (header_of p) < 176)
unfolding optional_header
length-header_of p w = elim (Bool-cases (p.pts == p.dts)) [
  | inl e ↦ rw (w.has_stamps, e) (omega arith, omega arith)
  | inr e ↦ rw (w.has_stamps, e) (omega arith, omega arith)
]

pub headed-IsFresh : (p : Pes) → IsNew p → IsFresh (headed p)
headed-IsFresh p w = record {
  header_none = w.header_none;
  index_zero = w.index_zero;
  has_header = (length-header_of p w).0;
  has_payload = w.has_payload;
}

parse_header :
    (p : Pes) (part : Bytes)
    → IsNew p
    → parse_pes_header (header_of p ++ part) ≡ some (p.pts, p.dts, part)
parse_header p part w =
    let e : remain_pes p ≡ (headed p, length (header_of p) + length p.payload) =
      remain_pes-headed p w.index_zero in
    rw e at
      (parse_pes_header-remain_pes p part w.index_zero w.prefix_one w.has_stamps w.pts_lt w.dts_lt)

-- The demultiplexer with the stamps of a PES and a part of its payload.
abbrev pub received : Pes → Bytes → Demuxer → Demuxer
received p part d = record d { video_ts = p.pts; video_dts = p.dts; video_buf = part }

-- What a new PES pushes out: the unit before it, if there is one.
abbrev pub flushed : Demuxer → List Event
flushed d = if ltb 0 (length d.video_buf) then (flush_video d).1 else []

pub feed_video-first :
    (p : Pes) (part : Bytes) (d : Demuxer)
    → IsNew p
    → feed_video true (header_of p ++ part) d ≡ (received p part d, flushed d)
unfolding feed_video start_video flush_video
feed_video-first p part d w =
    let parsed = parse_header p part w in
    elim (Bool-cases (ltb 0 (length d.video_buf))) [
      | inl e ↦ rw (e, start_video, parsed, e) refl
      | inr e ↦ rw (e, start_video, parsed, e) refl
    ]
