-- ===== src/Mpeg/Frame/Demux/Rest.antt =====
-- The packets behind the first one.
use ggmpeg.Prelude.{
  ℕ, zero, suc, ◌+◌, ◌-◌, ◌%◌, ◌≤◌, ◌<◌, ◌≡◌, refl, ap, ◌∙◌, inl, inr, Bool, false, ◌&&◌, [], ◌++◌,
  append_assoc, arith, ltb, ◌==◌, Bool-cases, length, take, take-append-drop, length-take,
  length-drop, Bytes,
}
use ggmpeg.Mpeg.Pes.{Pes}
use ggmpeg.Mpeg.Ts.{ts_video_pid, next_counter}
use ggmpeg.Mpeg.Mux.{pes}
use ggmpeg.Mpeg.Frame.{write_frame}
use ggmpeg.Mpeg.Frame.Chunks.{
  IsStarted, pending, remain_pes-started, marshal_pes-last, marshal_pes-middle, step-IsStarted,
  pending_lem,
}
use ggmpeg.Mpeg.Frame.Demux.{IsReceiver, IsCarried}
use ggmpeg.Mpeg.Frame.Demux.Sent.{last_plain, more_plain, last_stuffed}
use ggmpeg.Srt.Demux.{Demuxer, feed_video}

-- The unit that the demultiplexer collects, with more bytes.
abbrev pub collected : Demuxer → Bytes → Demuxer
collected d b = record d { video_buf = d.video_buf ++ b }

collected_twice : (d : Demuxer) (a b : Bytes) → collected (collected d a) b ≡ collected d (a ++ b)
collected_twice d a b = ap (λ x. record d { video_buf = x }) (append_assoc d.video_buf a b)

collected-IsReceiver : (d : Demuxer) (b : Bytes) → IsReceiver d → IsReceiver (collected d b)
collected-IsReceiver d b r = record { video = r.video; other = r.other }

length-full : (b : Bytes) → 184 ≤ length b → length (take 184 b) ≡ 184
length-full b h = ground (arith, length-take 184 b)

again_less : (n left k : ℕ) → 184 ≤ left → k ≡ left - 184 → left < suc n → k < n
again_less n left k h e hn = omega arith

again_mod :
    (left k : ℕ)
    → 184 ≤ left
    → k ≡ left - 184
    → (left % 184 == 183) ≡ false
    → (k % 184 == 183) ≡ false
again_mod left k h e hm = let same : k % 184 ≡ left % 184 = omega arith in rw same hm

-- All of what is left of a PES arrives.
pub rest_lem :
    (n : ℕ) (key : Bool) (counters : ℕ → ℕ) (dts : ℕ) (p : Pes) (d : Demuxer)
    → IsStarted p
    → IsReceiver d
    → length (pending p) < n
    → (length (pending p) % 184 == 183) ≡ false
    → IsCarried
        (write_frame n key false ts_video_pid counters (pes p) dts)
        d
        (collected d (pending p))
        []
unfolding feed_video
rest_lem zero key counters dts p d w r h hm = ground arith
rest_lem (suc n) key counters dts p d w r h hm =
    let left = length (pending p) in
    let none_key : (key && false) ≡ false = ground arith in
    let some_left : 0 < left = ground (arith, w.index_lt, length-drop p.index p.payload) in
    let done : Pes = record p { index = length p.payload } in
    let next : Pes = record p { index = p.index + 184 } in
    let full = take 184 (pending p) in
    let d1 : Demuxer = collected d full in
    elim (Bool-cases (ltb left 184)) [
      | inl e ↦
          last_stuffed n key false counters dts p p done (pending p) d r left none_key
            (remain_pes-started p w) (ground arith)
            (marshal_pes-last p left w some_left (omega arith)) refl
      | inr e ↦ elim (Bool-cases (left == 184)) [
        | inl e1 ↦
            last_plain n key false counters dts p p done (pending p) d r left none_key
              (remain_pes-started p w) (ground arith)
              (marshal_pes-last p 184 w (omega arith) (ground arith)) (ground arith)
        | inr e1 ↦
            let past : 184 < left = ground arith in
            let size : length full ≡ 184 = length-full (pending p) (ground arith) in
            let shorter : length (pending next) ≡ left - 184 =
              ap length (pending_lem p 184) ∙ length-drop 184 (pending p) in
            let again =
              rest_lem n key (next_counter ts_video_pid counters) dts next d1
                (step-IsStarted p 184 w past) (collected-IsReceiver d full r)
                (again_less n left (length (pending next)) (omega arith) shorter h)
                (again_mod left (length (pending next)) (omega arith) shorter hm) in
            let whole : collected d1 (pending next) ≡ collected d (pending p) =
              collected_twice d full (pending next)
              ∙ ap (λ b. collected d (full ++ b)) (pending_lem p 184)
              ∙ ap (collected d) (take-append-drop 184 (pending p)) in
            rw whole at (
              more_plain n key false counters dts p p next full d r left
                (collected d1 (pending next)) [] none_key (remain_pes-started p w) (ground arith)
                (marshal_pes-middle p 184 w (omega arith) past) size again)
      ]
    ]
