-- ===== src/Live/Loop.antt =====
-- From a room into a transport stream (libhls/hls.go), through the demultiplexer (libsrt/tsdemux.go),
-- and by the SRT endpoint into a room again (librtmp/srt_server.go).
use ggmpeg.Prelude.{
  ℕ, ◌+◌, ◌-◌, ◌*◌, ◌/◌, ◌%◌, ◌^◌, ◌<◌, ◌≡◌, refl, inl, inr, Bool, true, false, some, List, [], ◌∷◌,
  ◌++◌, arith, ◌==◌, if◌then◌else◌, Bool-cases, length, Bytes, All, at,
}
use ggmpeg.Flv.{video, VideoTag, flv_video_avc}
use ggmpeg.Rtsp.H264.{avcc_from_nals}
use ggmpeg.Avc.{start_code}
use ggmpeg.Avc.Units.{IsUnit as IsAvcUnit}
use ggmpeg.Dash.Dcr.{build_avc_sequence_header}
use ggmpeg.Mpeg.Pes.{Pes, is_plain_stream}
use ggmpeg.Mpeg.Frame.Demux.{IsReceiver}
use ggmpeg.Mpeg.Frame.Demux.First.{IsNew, received, flushed}
use ggmpeg.Mpeg.Frame.Arrival.{total, fits, transmit, feed-write_frame}
use ggmpeg.Srt.Demux.{AccessUnit, Demuxer, Event, flush_video, contains_annexb_keyframe}
use ggmpeg.Hls.Lift.{Lift, Lifted, new_pes, ticks, video_pes, to_pes}
use ggmpeg.Hls.Lift.Video.{IsCoded, delimiter, to_pes-avcc_from_nals}
use ggmpeg.Live.{
  RoomEvent, set_video_header, write_meta, reset, write, avc_tag, key_frame, inter_frame,
  avc_sequence_header, avc_nalu,
}
use ggmpeg.Live.Annexb.{first_code, join_annexb, IsUnit}
use ggmpeg.Live.Bridge.{Bridge, on_video}
use ggmpeg.Live.Bridge.Video.{HasType, IsPicture, on_video_first}

-- What the demultiplexer hands over for a PES.
abbrev pub unit_of : Pes → AccessUnit
unit_of p = record {
  pts = p.pts;
  dts = p.dts;
  key = contains_annexb_keyframe p.payload;
  nal = p.payload;
}

-- The PES of a tag with the units of a key frame.
abbrev pub carried : VideoTag → Bytes → Bytes → Bytes → List Bytes → Lifted
carried tag sps pps n ns = video_pes 0x1b tag (join_annexb (delimiter ∷ sps ∷ pps ∷ n ∷ ns))

-- The stamps of a tag, as long as they fit.
stamps_lem :
    (tag : VideoTag) (b : Bytes)
    → (tag.base.timestamp + tag.cts) * 90 < 2 ^ 32
    → ((video_pes 0x1b tag b).pes.dts ≡ tag.base.timestamp * 90)
      × ((video_pes 0x1b tag b).pes.pts ≡ (tag.base.timestamp + tag.cts) * 90)
unfolding video_pes new_pes ticks
stamps_lem tag b h = elim (Bool-cases (tag.cts == 0)) [
  | inl e ↦ let z : tag.cts ≡ 0 = ground arith in rw e (omega arith, omega arith)
  | inr e ↦ rw e (omega arith, omega arith)
]

carried-IsNew :
    (tag : VideoTag) (b : Bytes)
    → (tag.base.timestamp + tag.cts) * 90 < 2 ^ 32
    → 0 < length b
    → IsNew (video_pes 0x1b tag b).pes
unfolding video_pes new_pes is_plain_stream
carried-IsNew tag b h hb =
    let (dts, pts) = stamps_lem tag b h in
    record {
      index_zero = refl;
      header_none = refl;
      prefix_one = refl;
      has_stamps = refl;
      pts_lt = omega (arith, pts);
      dts_lt = omega (arith, dts);
      has_payload = hb;
    }

coded-IsPicture : (n : Bytes) → IsCoded n → IsAvcUnit n → IsPicture n
coded-IsPicture [] h u = absurd (omega (arith, u.not_empty))
coded-IsPicture (x ∷ t) h u = (λ e. ground (arith, e), ground arith, ground arith)

coded-pictures : (ns : List Bytes) → All IsCoded ns → All IsAvcUnit ns → All IsPicture ns
coded-pictures [] h u = u
coded-pictures (n ∷ ns) (h, hs) (u, us) = (coded-IsPicture n h u, coded-pictures ns hs us)

delimiter-IsUnit : IsUnit delimiter
unfolding first_code
delimiter-IsUnit = ground arith

-- What the room is told.
abbrev pub announced : Bytes → Bytes → Bool → ℕ → ℕ → List Bytes → List RoomEvent
announced sps pps key ts cts units =
    let header = avc_tag 0 key_frame avc_sequence_header 0 (build_avc_sequence_header sps pps) in
    let picture =
      avc_tag ts (if key then key_frame else inter_frame) avc_nalu cts (avcc_from_nals units) in
    set_video_header header
    ∷ write_meta (video header)
    ∷ ((if key then reset ∷ [] else []) ++ write (video picture) ∷ [])

on_video-unit :
    (br : Bridge) (au : AccessUnit) (ts cts : ℕ) (sps pps n : Bytes) (ns : List Bytes)
    → au.nal ≡ join_annexb (delimiter ∷ sps ∷ pps ∷ n ∷ ns)
    → au.dts ≡ ts * 90
    → au.pts ≡ (ts + cts) * 90
    → (ts + cts) * 90 < 2 ^ 32
    → br.emitted_video ≡ false
    → All IsUnit (sps ∷ pps ∷ n ∷ ns)
    → HasType 7 sps
    → HasType 8 pps
    → All IsPicture (n ∷ ns)
    → (on_video br au).1 ≡ announced sps pps au.key ts cts (delimiter ∷ n ∷ ns)
on_video-unit br au ts cts sps pps n ns ha hd hp hw hb hu hs ht hn =
    let back : au.dts / 90 ≡ ts = omega (arith, hd) in
    let offset : (au.pts - au.dts) / 90 ≡ cts = omega (arith, hd, hp) in
    let first =
      on_video_first br au (delimiter ∷ []) sps pps (n ∷ ns) delimiter (n ∷ ns) hb ha
        (delimiter-IsUnit, hu) (ground arith) hs ht hn refl (omega (arith, hd, hp))
        (omega (arith, hp, hw)) in
    rw (back, offset) at first.1

-- A key frame of H.264 out of one room, its units an IDR unit of two bytes at least and coded
-- pictures and SEI behind it, is written as a PES in transport packets behind the parameter sets of
-- its configuration; a demultiplexer that knows the video PID takes these in, pushes out the unit it
-- had before, and hands this one over next; and a bridge that has not sent a header makes of it the
-- configuration of the same two sets, as a header, and one tag with the same time and composition
-- offset and the same units, behind an access unit delimiter. No unit or set holds a start code or
-- ends with a zero; 90 times the times fits 32 bits; and the frame has a size that the packets carry.
-- The last tag is a key frame, with a reset in front of it, if the demultiplexer finds the IDR unit.
pub on_video-to_pes :
    (s : Lift) (d : Demuxer) (br : Bridge) (counters : ℕ → ℕ) (fuel : ℕ) (tag : VideoTag)
    (sps pps n : Bytes) (ns : List Bytes)
    → tag.codec_id ≡ flv_video_avc
    → tag.avc_packet_type ≡ avc_nalu
    → tag.video_data ≡ avcc_from_nals (n ∷ ns)
    → s.specific_info ≡ start_code ++ (sps ++ (start_code ++ pps))
    → All IsAvcUnit (n ∷ ns)
    → 1 < length n
    → at n 0 % 2 ^ 5 ≡ 5
    → All IsCoded ns
    → All IsUnit (sps ∷ pps ∷ n ∷ ns)
    → HasType 7 sps
    → HasType 8 pps
    → (tag.base.timestamp + tag.cts) * 90 < 2 ^ 32
    → br.emitted_video ≡ false
    → d.has_on_video ≡ true
    → IsReceiver d
    → fits (carried tag sps pps n ns).video_key (total (carried tag sps pps n ns).pes) ≡ true
    → total (carried tag sps pps n ns).pes < fuel
    → (l : Lifted) × (d' : Demuxer) × ((to_pes s (video tag)).1 ≡ some l)
      × (transmit fuel l.video_key counters l.pes l.pes.dts d ≡ some (d', flushed d))
      × ((flush_video d').1 ≡ Event.on_video (unit_of l.pes) ∷ [])
      × ((on_video br (unit_of l.pes)).1
          ≡ announced sps pps (unit_of l.pes).key tag.base.timestamp tag.cts (delimiter ∷ n ∷ ns))
unfolding flush_video
on_video-to_pes s d br counters fuel tag sps pps n ns hc ht hd hs hn hl hi hk hu hsps hpps hw hb he
      hr hf hfuel =
    let l = carried tag sps pps n ns in
    let nal = join_annexb (delimiter ∷ sps ∷ pps ∷ n ∷ ns) in
    let (dts, pts) = stamps_lem tag nal hw in
    let some_bytes : 0 < length nal = unfold join_annexb in omega arith in
    let pictures = coded-pictures (n ∷ ns) (inr (inl hi), hk) hn in
    (
      l,
      received l.pes l.pes.payload d,
      to_pes-avcc_from_nals s tag sps pps n ns hc ht hd hs hn hl hi hk,
      feed-write_frame fuel l.video_key counters l.pes l.pes.dts d
          (carried-IsNew tag nal hw some_bytes) hr hf hfuel,
      rw he refl,
      on_video-unit br (unit_of l.pes) tag.base.timestamp tag.cts sps pps n ns
          (unfold video_pes new_pes in refl) dts pts hw hb hu hsps hpps pictures,
    )
