-- ===== src/Mpeg/Frame/Demux/Sent.antt =====
-- One packet, from write_frame to the demultiplexer: the chunk alone, behind stuffing, or behind a
-- clock.
use ggmpeg.Prelude.{
  ℕ, suc, ◌-◌, ◌≤◌, ◌<◌, ◌≡◌, refl, Bool, true, false, ◌&&◌, some, List, ◌∷◌, ◌++◌, arith, length,
  length-replicate, Bytes,
}
use ggmpeg.Mpeg.Pes.{Pes, remain_pes, marshal_pes}
use ggmpeg.Mpeg.Ts.{ts_video_pid, next_counter, pcr_bytes}
use ggmpeg.Mpeg.Mux.{pes}
use ggmpeg.Mpeg.Frame.{write_frame}
use ggmpeg.Mpeg.Frame.Packet.{
  packet, stuffing, clock, payload_of-plain, payload_of-adapted, mux-plain, mux-stuffed, mux-clock,
}
use ggmpeg.Mpeg.Frame.Demux.{IsReceiver, feed_packet-video, IsCarried, carry_last, carry_more}
use ggmpeg.Srt.Demux.{Demuxer, Event, feed_video}

module _ (n : ℕ) (key first : Bool) (counters : ℕ → ℕ) (dts : ℕ) (p p1 p2 : Pes) (chunk : Bytes)
    (d : Demuxer) (r : IsReceiver d) where
  abbrev counter : ℕ
  counter = counters ts_video_pid

  abbrev pub fed : Demuxer × List Event
  fed = feed_video first chunk d

  pub last_plain :
      (left : ℕ)
      → (key && first) ≡ false
      → remain_pes p ≡ (p1, left)
      → 184 ≤ left
      → marshal_pes p1 184 ≡ some (p2, chunk, true)
      → length chunk ≡ 184
      → IsCarried (write_frame (suc n) key first ts_video_pid counters (pes p) dts) d fed.0 fed.1
  last_plain left hk hr hl hm hc =
      carry_last n key first counters (pes p) (pes p2) dts (packet first 1 counter chunk) d fed.0
        fed.1 (rw hk (mux-plain first true counters dts left p p1 p2 chunk hr hl hm hc)) refl
        (feed_packet-video first 1 counter chunk chunk d (payload_of-plain first counter chunk) r)

  pub more_plain :
      (left : ℕ) (d2 : Demuxer) (more : List Event)
      → (key && first) ≡ false
      → remain_pes p ≡ (p1, left)
      → 184 ≤ left
      → marshal_pes p1 184 ≡ some (p2, chunk, false)
      → length chunk ≡ 184
      → IsCarried
          (write_frame n key false ts_video_pid (next_counter ts_video_pid counters) (pes p2) dts)
          fed.0
          d2
          more
      → IsCarried
          (write_frame (suc n) key first ts_video_pid counters (pes p) dts)
          d
          d2
          (fed.1 ++ more)
  more_plain left d2 more hk hr hl hm hc w =
      carry_more n key first counters (pes p) (pes p2) dts (packet first 1 counter chunk) d fed.0 d2
        fed.1 more (rw hk (mux-plain first false counters dts left p p1 p2 chunk hr hl hm hc)) refl
        (feed_packet-video first 1 counter chunk chunk d (payload_of-plain first counter chunk) r) w

  pub last_stuffed :
      (left : ℕ)
      → (key && first) ≡ false
      → remain_pes p ≡ (p1, left)
      → left < 183
      → marshal_pes p1 left ≡ some (p2, chunk, true)
      → length chunk ≡ left
      → IsCarried (write_frame (suc n) key first ts_video_pid counters (pes p) dts) d fed.0 fed.1
  last_stuffed left hk hr hl hm hc =
      let field : Bytes = (183 - left) ∷ stuffing left in
      let size : length (stuffing left) ≡ 183 - left =
        ground (arith, length-replicate {A = ℕ} (182 - left) 0xff) in
      carry_last n key first counters (pes p) (pes p2) dts (packet first 3 counter (field ++ chunk))
        d fed.0 fed.1 (rw hk (mux-stuffed first true counters dts left p p1 p2 chunk hr hl hm hc))
        refl
        (feed_packet-video first 3 counter (field ++ chunk) chunk d
          (payload_of-adapted first counter (183 - left) (stuffing left) chunk size (omega arith))
          r)

  abbrev clock_field : Bytes
  clock_field = 7 ∷ 0x50 ∷ pcr_bytes (clock dts)

  pub last_clock :
      (left : ℕ)
      → (key && first) ≡ true
      → remain_pes p ≡ (p1, left)
      → 176 ≤ left
      → marshal_pes p1 176 ≡ some (p2, chunk, true)
      → length chunk ≡ 176
      → IsCarried (write_frame (suc n) key first ts_video_pid counters (pes p) dts) d fed.0 fed.1
  unfolding pcr_bytes
  last_clock left hk hr hl hm hc =
      carry_last n key first counters (pes p) (pes p2) dts
        (packet first 3 counter (clock_field ++ chunk)) d fed.0 fed.1
        (rw hk (mux-clock first true counters dts left p p1 p2 chunk hr hl hm hc)) refl
        (feed_packet-video first 3 counter (clock_field ++ chunk) chunk d
          (payload_of-adapted first counter 7 (0x50 ∷ pcr_bytes (clock dts)) chunk refl
            (omega arith))
          r)

  pub more_clock :
      (left : ℕ) (d2 : Demuxer) (more : List Event)
      → (key && first) ≡ true
      → remain_pes p ≡ (p1, left)
      → 176 ≤ left
      → marshal_pes p1 176 ≡ some (p2, chunk, false)
      → length chunk ≡ 176
      → IsCarried
          (write_frame n key false ts_video_pid (next_counter ts_video_pid counters) (pes p2) dts)
          fed.0
          d2
          more
      → IsCarried
          (write_frame (suc n) key first ts_video_pid counters (pes p) dts)
          d
          d2
          (fed.1 ++ more)
  unfolding pcr_bytes
  more_clock left d2 more hk hr hl hm hc w =
      carry_more n key first counters (pes p) (pes p2) dts
        (packet first 3 counter (clock_field ++ chunk)) d fed.0 d2 fed.1 more
        (rw hk (mux-clock first false counters dts left p p1 p2 chunk hr hl hm hc)) refl
        (feed_packet-video first 3 counter (clock_field ++ chunk) chunk d
          (payload_of-adapted first counter 7 (0x50 ∷ pcr_bytes (clock dts)) chunk refl
            (omega arith))
          r)
        w
