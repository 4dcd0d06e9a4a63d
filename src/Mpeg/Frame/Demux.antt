-- ===== src/Mpeg/Frame/Demux.antt =====
-- The packets of one PES (libhls/hls.go) on their way through the demultiplexer (libsrt/tsdemux.go).
use ggmpeg.Prelude.{
  ℕ, zero, suc, ◌+◌, ◌-◌, ◌*◌, ◌/◌, ◌%◌, ◌^◌, ◌≤◌, ◌<◌, ◌≡◌, refl, sym, ap, ◌∙◌, ◌≢◌, ◌↔◌, ◌⊎◌, inl,
  inr, Bool, true, false, not, ◌&&◌, ◌||◌, Option, none, some, List, [], ◌∷◌, ◌++◌, append-nil,
  append_assoc, arith, ltb, leb, ◌==◌, if◌then◌else◌, ltb→lt, lt→ltb, leb→le, le→leb, leb-false→lt,
  ltb-false→le, ==_iff, tests, Bool-cases, Option-cases, length, get_elem?, set, length-append,
  get_or, take, drop, replicate, take-append-drop, length-take, length-drop, length-replicate,
  take-append_left, drop-append_left, take_whole, drop_whole, drop-append_past, take-append_past,
  Bytes, IsByte, All, All-append, at, has_bit, put_be16, put_be24, put_be32, be16_at, be24_at,
  be32_at,
}
use ggmpeg.Mpeg.Pes.{Pes}
use ggmpeg.Mpeg.Ts.{ts_video_pid, next_counter, new_ts}
use ggmpeg.Mpeg.Mux.{Psi, pes, mux}
use ggmpeg.Mpeg.Mux.Size.{length-mux}
use ggmpeg.Mpeg.Frame.{write_frame}
use ggmpeg.Mpeg.Frame.Packet.{packet}
use ggmpeg.Srt.Demux.{
  Demuxer, Event, AccessUnit, payload_of, feed_payload, feed_packet, feed_loop, feed_video,
  ts_packet_size,
}
pub mod Sent
pub mod Rest
pub mod First

-- A demultiplexer that has learned the video PID from the tables.
pub record IsReceiver (d : Demuxer) : Type 0 where
  pub video : d.video_pid ≡ ts_video_pid
  pub other : (ts_video_pid == d.pmt_pid) ≡ false

pub feed_packet-video :
    (first : Bool) (exist counter : ℕ) (rest chunk : Bytes) (d : Demuxer)
    → payload_of (packet first exist counter rest) ≡ some chunk
    → IsReceiver d
    → feed_packet (packet first exist counter rest) d ≡ some (feed_video first chunk d)
unfolding feed_packet feed_payload
feed_packet-video true exist counter rest chunk d e r =
    rw (e, feed_packet, feed_payload, r.other, r.video) refl
feed_packet-video false exist counter rest chunk d e r =
    rw (e, feed_packet, feed_payload, r.other, r.video) refl

at-append : (xs ys : Bytes) → 0 < length xs → at (xs ++ ys) 0 ≡ at xs 0
at-append (x ∷ xs) ys h = refl
at-append [] ys h = ground arith

-- Feed takes the packet off the front.
feed_loop-packet :
    (m : ℕ) (pkt bs : Bytes) (d d1 d2 : Demuxer) (events more : List Event)
    → length pkt ≡ 188
    → at pkt 0 ≡ 0x47
    → feed_packet pkt d ≡ some (d1, events)
    → feed_loop m bs d1 ≡ some (d2, more)
    → feed_loop (suc m) (pkt ++ bs) d ≡ some (d2, events ++ more)
unfolding feed_loop
feed_loop-packet m pkt bs d d1 d2 events more hl hs hf hn =
    let whole : ltb (length (pkt ++ bs)) 188 ≡ false = ground (arith, length-append pkt bs) in
    let sync : at (pkt ++ bs) 0 ≡ 0x47 = at-append pkt bs (ground arith) ∙ hs in
    let front : take 188 (pkt ++ bs) ≡ pkt = take-append_left pkt bs 188 (sym hl) in
    let back : drop 188 (pkt ++ bs) ≡ bs = drop-append_left pkt bs 188 (sym hl) in
    rw (whole, sync, front, hf, back, hn) refl

-- On any fuel that is enough.
pub feed_loop-enough :
    (m : ℕ) (pkt bs : Bytes) (d d1 d2 : Demuxer) (events more : List Event)
    → length pkt ≡ 188
    → at pkt 0 ≡ 0x47
    → feed_packet pkt d ≡ some (d1, events)
    → ((k : ℕ) → length bs ≤ k → feed_loop k bs d1 ≡ some (d2, more))
    → length (pkt ++ bs) ≤ m
    → feed_loop m (pkt ++ bs) d ≡ some (d2, events ++ more)
feed_loop-enough zero pkt bs d d1 d2 events more hl hs hf hn h =
    ground (arith, length-append pkt bs)
feed_loop-enough (suc m) pkt bs d d1 d2 events more hl hs hf hn h =
    feed_loop-packet m pkt bs d d1 d2 events more hl hs hf
      (hn m (ground (arith, length-append pkt bs)))

pub feed_loop-nil : (m : ℕ) (d : Demuxer) → feed_loop m [] d ≡ some (d, [])
unfolding feed_loop
feed_loop-nil zero d = refl
feed_loop-nil (suc m) d = refl

-- What is written arrives: the demultiplexer goes from d to d1 with these events.
pub record IsCarried (written : Option Bytes) (d d1 : Demuxer) (events : List Event) : Type 0 where
  pub bytes : Bytes
  pub is_written : written ≡ some bytes
  pub is_fed : (m : ℕ) → length bytes ≤ m → feed_loop m bytes d ≡ some (d1, events)

pub carry_last :
    (n : ℕ) (key first : Bool) (counters : ℕ → ℕ) (psi psi1 : Psi) (dts : ℕ) (pkt : Bytes)
    (d d1 : Demuxer) (events : List Event)
    → mux (key && first) dts psi (new_ts ts_video_pid counters first).0
      ≡ record { psi = psi1; bytes = pkt; finish = true; failed = false }
    → at pkt 0 ≡ 0x47
    → feed_packet pkt d ≡ some (d1, events)
    → IsCarried (write_frame (suc n) key first ts_video_pid counters psi dts) d d1 events
unfolding write_frame
carry_last n key first counters psi psi1 dts pkt d d1 events e hs hf = record {
  bytes = pkt;
  is_written = rw e refl;
  is_fed = λ m h.
      let size : length pkt ≡ 188 =
        rw e at (length-mux (key && first) first dts ts_video_pid counters psi) in
      let step : feed_loop m (pkt ++ []) d ≡ some (d1, events ++ []) =
        feed_loop-enough m pkt [] d d1 d1 events [] size hs hf (λ k i. feed_loop-nil k d1)
          (rw append-nil h) in
      rw (append-nil pkt, append-nil events) at step;
}

pub carry_more :
    (n : ℕ) (key first : Bool) (counters : ℕ → ℕ) (psi psi1 : Psi) (dts : ℕ) (pkt : Bytes)
    (d d1 d2 : Demuxer) (events more : List Event)
    → mux (key && first) dts psi (new_ts ts_video_pid counters first).0
      ≡ record { psi = psi1; bytes = pkt; finish = false; failed = false }
    → at pkt 0 ≡ 0x47
    → feed_packet pkt d ≡ some (d1, events)
    → IsCarried
        (write_frame n key false ts_video_pid (next_counter ts_video_pid counters) psi1 dts)
        d1
        d2
        more
    → IsCarried (write_frame (suc n) key first ts_video_pid counters psi dts) d d2 (events ++ more)
unfolding write_frame new_ts
carry_more n key first counters psi psi1 dts pkt d d1 d2 events more e hs hf w = record {
  bytes = pkt ++ w.bytes;
  is_written = rw (e, w.is_written, e) refl;
  is_fed =
      let size : length pkt ≡ 188 =
        rw e at (length-mux (key && first) first dts ts_video_pid counters psi) in
      λ m h. feed_loop-enough m pkt w.bytes d d1 d2 events more size hs hf w.is_fed h;
}
