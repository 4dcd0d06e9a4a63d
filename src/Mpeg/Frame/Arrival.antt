-- ===== src/Mpeg/Frame/Arrival.antt =====
-- A PES from its first packet to its last (libhls/hls.go), and what comes out of the demultiplexer
-- (libsrt/tsdemux.go).
use ggmpeg.Prelude.{
  ℕ, zero, suc, ◌+◌, ◌-◌, ◌%◌, ◌≤◌, ◌<◌, ◌≡◌, refl, ap, ◌∙◌, inl, inr, Bool, true, false, not, ◌&&◌,
  Option, none, some, List, [], ◌++◌, append-nil, arith, ltb, leb, ◌==◌, if◌then◌else◌, Bool-cases,
  length, length-append, take, take-append-drop, length-take, length-drop, Bytes,
}
use ggmpeg.Mpeg.Pes.{Pes}
use ggmpeg.Mpeg.Ts.{ts_video_pid, next_counter}
use ggmpeg.Mpeg.Mux.{pes}
use ggmpeg.Mpeg.Frame.{write_frame}
use ggmpeg.Mpeg.Frame.Chunks.{
  IsStarted, pending, ready, marshal_pes-whole, marshal_pes-first, ready-IsStarted,
}
use ggmpeg.Mpeg.Frame.Demux.{IsReceiver, IsCarried}
use ggmpeg.Mpeg.Frame.Demux.Sent.{last_plain, more_plain, last_stuffed, last_clock, more_clock}
use ggmpeg.Mpeg.Frame.Demux.Rest.{collected, rest_lem}
use ggmpeg.Mpeg.Frame.Demux.First.{
  IsNew, header_of, headed, remain_pes-headed, length-header_of, headed-IsFresh, received, flushed,
  feed_video-first,
}
use ggmpeg.Srt.Demux.{Demuxer, Event, feed}

-- The size of the header and the payload.
abbrev pub total : Pes → ℕ
total p = length (header_of p) + length p.payload

-- The sizes that come out: a last packet needs no field of a single byte, and a key frame fills its
-- first packet.
abbrev pub fits : Bool → ℕ → Bool
fits key n = if key then leb 176 n && not ((n - 176) % 184 == 183) else not (n % 184 == 183)

module _ (n : ℕ) (key : Bool) (dts : ℕ) (p : Pes) (d : Demuxer) (w : IsNew p)
    (r : IsReceiver d) where
  -- The packets behind a first one with that room.
  behind :
      (counters : ℕ → ℕ) (room : ℕ)
      → length (header_of p) < room
      → room < total p
      → total p < suc n
      → 0 < room
      → ((total p - room) % 184 == 183) ≡ false
      → IsCarried
          (write_frame n key false ts_video_pid counters
            (pes (ready (headed p) (room - length (header_of p))))
            dts)
          (received p (take (room - length (header_of p)) p.payload) d)
          (received p p.payload d)
          []
  behind counters room h0 h1 hn hr hm =
      let k = room - length (header_of p) in
      let next : Pes = ready (headed p) k in
      let d1 : Demuxer = received p (take k p.payload) d in
      let left : length (pending next) ≡ total p - room = length-drop k p.payload ∙ omega arith in
      let started : IsStarted next = ready-IsStarted (headed p) k (omega arith) (omega arith) in
      let arrived =
        rest_lem n key counters dts next d1 started (record { video = r.video; other = r.other })
          (omega arith) (rw left hm) in
      let whole : collected d1 (pending next) ≡ received p p.payload d =
        ap (λ b. received p b d) (take-append-drop k p.payload) in
      rw whole at arrived

  abbrev first_chunk : ℕ → Bytes
  first_chunk room = header_of p ++ take (room - length (header_of p)) p.payload

  length-first_chunk :
      (room : ℕ) → length (header_of p) < room → room ≤ total p → length (first_chunk room) ≡ room
  length-first_chunk room h0 h1 =
      let k = room - length (header_of p) in
      ground (arith, length-append (header_of p) (take k p.payload), length-take k p.payload)

  short_frame :
      (counters : ℕ → ℕ)
      → total p < 183
      → key ≡ false
      → IsCarried
          (write_frame (suc n) key true ts_video_pid counters (pes p) dts)
          d
          (received p p.payload d)
          (flushed d)
  short_frame counters h hk =
      let none_key : (key && true) ≡ false = rw hk refl in
      rw (feed_video-first p p.payload d w) at (
        last_stuffed n key true counters dts p (headed p) (ready (headed p) (length p.payload))
          (header_of p ++ p.payload) d r (total p) none_key (remain_pes-headed p w.index_zero) h
          (marshal_pes-whole (headed p) (total p) (headed-IsFresh p w) (omega arith))
          (length-append (header_of p) p.payload))

  plain_frame :
      (counters : ℕ → ℕ)
      → 184 ≤ total p
      → key ≡ false
      → total p < suc n
      → ((total p - 184) % 184 == 183) ≡ false
      → IsCarried
          (write_frame (suc n) key true ts_video_pid counters (pes p) dts)
          d
          (received p p.payload d)
          (flushed d)
  plain_frame counters h hk hn hm =
      let none_key : (key && true) ≡ false = rw hk refl in
      let k = 184 - length (header_of p) in
      let here = feed_video-first p (take k p.payload) d w in
      let head = length-header_of p w in
      elim (Bool-cases (total p == 184)) [
        | inl e ↦ rw (feed_video-first p p.payload d w) at (
            last_plain n key true counters dts p (headed p) (ready (headed p) (length p.payload))
              (header_of p ++ p.payload) d r (total p) none_key (remain_pes-headed p w.index_zero) h
              (marshal_pes-whole (headed p) 184 (headed-IsFresh p w) (ground arith))
              (length-append (header_of p) p.payload ∙ ground arith))
        | inr e ↦
            let past : 184 < total p = ground arith in
            let inside : length (header_of p) < 184 = omega arith in
            rw (here, append-nil) at
              (more_plain n key true counters dts p (headed p) (ready (headed p) k)
                (first_chunk 184) d r (total p) (received p p.payload d) [] none_key
                (remain_pes-headed p w.index_zero) h
                (marshal_pes-first (headed p) 184 (headed-IsFresh p w) inside past)
                (length-first_chunk 184 inside h)
                (rw here (
                  behind (next_counter ts_video_pid counters) 184 inside past hn (omega arith) hm)))
      ]

  clock_frame :
      (counters : ℕ → ℕ)
      → 176 ≤ total p
      → key ≡ true
      → total p < suc n
      → ((total p - 176) % 184 == 183) ≡ false
      → IsCarried
          (write_frame (suc n) key true ts_video_pid counters (pes p) dts)
          d
          (received p p.payload d)
          (flushed d)
  clock_frame counters h hk hn hm =
      let a_key : (key && true) ≡ true = rw hk refl in
      let k = 176 - length (header_of p) in
      let here = feed_video-first p (take k p.payload) d w in
      let head = length-header_of p w in
      elim (Bool-cases (total p == 176)) [
        | inl e ↦ rw (feed_video-first p p.payload d w) at (
            last_clock n key true counters dts p (headed p) (ready (headed p) (length p.payload))
              (header_of p ++ p.payload) d r (total p) a_key (remain_pes-headed p w.index_zero) h
              (marshal_pes-whole (headed p) 176 (headed-IsFresh p w) (ground arith))
              (length-append (header_of p) p.payload ∙ ground arith))
        | inr e ↦
            let past : 176 < total p = ground arith in
            let inside : length (header_of p) < 176 = omega arith in
            rw (here, append-nil) at
              (more_clock n key true counters dts p (headed p) (ready (headed p) k)
                (first_chunk 176) d r (total p) (received p p.payload d) [] a_key
                (remain_pes-headed p w.index_zero) h
                (marshal_pes-first (headed p) 176 (headed-IsFresh p w) inside past)
                (length-first_chunk 176 inside h)
                (rw here (
                  behind (next_counter ts_video_pid counters) 176 inside past hn (omega arith) hm)))
      ]

  -- By the sizes.
  frame_lem :
      (counters : ℕ → ℕ)
      → fits key (total p) ≡ true
      → total p < suc n
      → IsCarried
          (write_frame (suc n) key true ts_video_pid counters (pes p) dts)
          d
          (received p p.payload d)
          (flushed d)
  frame_lem counters hf hn = elim (Bool-cases key) [
    | inl e ↦ clock_frame counters (ground arith) e hn (ground arith)
    | inr e ↦ elim (Bool-cases (ltb (total p) 184)) [
      | inl e1 ↦ short_frame counters (ground arith) e
      | inr e1 ↦ plain_frame counters (ground arith) e hn (ground arith)
    ]
  ]

-- What a demultiplexer makes of the packets of a PES.
abbrev pub transmit : ℕ → Bool → (ℕ → ℕ) → Pes → ℕ → Demuxer → Option (Demuxer × List Event)
transmit n key counters p dts d = elim (write_frame n key true ts_video_pid counters (pes p) dts) [
  | some b ↦ feed b d
  | none ↦ none
]

-- The packets that the segmenter writes for a video PES with stamps of 33 bits, fed to a
-- demultiplexer that knows the video PID, leave it with exactly that payload, PTS and DTS, and push
-- out the unit before it. The writing succeeds on fuel above the number of bytes. The payload is not
-- empty; header and payload together are not a multiple of 184 plus 183, and for a key frame they
-- are at least 176 and do not leave such a number behind the first 176.
pub feed-write_frame :
    (n : ℕ) (key : Bool) (counters : ℕ → ℕ) (p : Pes) (dts : ℕ) (d : Demuxer)
    → IsNew p
    → IsReceiver d
    → fits key (total p) ≡ true
    → total p < n
    → transmit n key counters p dts d ≡ some (received p p.payload d, flushed d)
unfolding feed
feed-write_frame zero key counters p dts d w r hf hn = ground arith
feed-write_frame (suc n) key counters p dts d w r hf hn =
    let c = frame_lem n key dts p d w r counters hf hn in
    rw (c.is_written, transmit) (c.is_fed (length c.bytes) (omega arith))
