-- ===== src/Hls/Lift/Frames.antt =====
-- AAC frames through toPES and its cache (libhls/hls.go, libhls/audio_cache.go).
use ggmpeg.Prelude.{
  ℕ, ◌+◌, ◌*◌, ◌/◌, ◌<◌, ◌≡◌, refl, sym, ap, ◌∙◌, inl, inr, false, Option, none, some, List, [],
  ◌∷◌, ◌++◌, append-nil, append_assoc, arith, ltb, ◌==◌, if◌then◌else◌, ltb→lt, Bool-cases, Bytes,
}
use ggmpeg.Aac.{AacHeader, adts}
use ggmpeg.Hls.{Align, align}
use ggmpeg.Hls.Lift.{
  AudioCache, cache_max_frames, cache_frame, get_frame, Lift, Lifted, rate_of, new_pes, emit_batch,
  lift_frame,
}

-- What the cache holds back.
unfoldable pub held : AudioCache → Bytes
held a = if a.num == 0 then [] else a.buf

unfoldable pub lifted_bytes : Option Lifted → Bytes
lifted_bytes none = []
lifted_bytes (some l) = l.pes.payload

unfoldable pub lift_frames : Lift → List (ℕ × Bytes) → Lift × Bytes
lift_frames s [] = (s, [])
lift_frames s ((dts, b) ∷ fs) =
    let first = lift_frame s dts b in
    let rest = lift_frames first.0 fs in (rest.0, lifted_bytes first.1 ++ rest.1)

-- The frames of a stream with their ADTS headers.
unfoldable pub stream_of : AacHeader → List (ℕ × Bytes) → Bytes
stream_of ah [] = []
stream_of ah ((dts, b) ∷ fs) = (adts ah b ++ b) ++ stream_of ah fs

cache_frame_lem :
    (a : AudioCache) (src : Bytes) (pts : ℕ)
    → a.num < cache_max_frames
    → ((cache_frame a src pts).buf ≡ held a ++ src) × ((cache_frame a src pts).num ≡ a.num + 1)
unfolding cache_frame held
cache_frame_lem a src pts h = elim (Bool-cases (a.num == 0)) [
  | inl e ↦ let z : a.num ≡ 0 = ground arith in rw e (refl, ground arith)
  | inr e ↦ rw e (refl, omega arith)
]

emit_batch_lem :
    (s : Lift) (placed : Align) (cache : AudioCache)
    → 0 < cache.num
    → ((emit_batch s placed cache).0.cache.num < cache_max_frames)
      × ((emit_batch s placed cache).0.ah ≡ s.ah)
      × (lifted_bytes (emit_batch s placed cache).1 ++ held (emit_batch s placed cache).0.cache
          ≡ cache.buf)
unfolding emit_batch held lifted_bytes get_frame new_pes
emit_batch_lem s placed cache h = elim (Bool-cases (ltb cache.num cache_max_frames)) [
  | inl e ↦
      let some_frames : (cache.num == 0) ≡ false = ground arith in
      (rw e (ltb→lt cache.num cache_max_frames e), rw e refl, rw (e, some_frames) refl)
  | inr e ↦ (rw e (omega arith), rw e refl, rw e (append-nil cache.buf))
]

lift_frame_lem :
    (s : Lift) (dts : ℕ) (b : Bytes)
    → s.cache.num < cache_max_frames
    → ((lift_frame s dts b).0.cache.num < cache_max_frames)
      × ((lift_frame s dts b).0.ah ≡ s.ah)
      × (lifted_bytes (lift_frame s dts b).1 ++ held (lift_frame s dts b).0.cache
          ≡ held s.cache ++ (adts s.ah b ++ b))
unfolding lift_frame
lift_frame_lem s dts b h =
    let placed = align s.align dts (90000 * 1024 / rate_of s.ah) in
    let (whole, count) = cache_frame_lem s.cache (adts s.ah b ++ b) placed.1 h in
    let cache = cache_frame s.cache (adts s.ah b ++ b) placed.1 in
    let (num, ah, bytes) = emit_batch_lem s placed.0 cache (omega (arith, count)) in
    (num, ah, bytes ∙ whole)

-- Audio frames, however many, are neither lost nor moved: what goes out in PES, and then what the
-- cache holds back, is what it held before, and then the frames in order with their ADTS headers. The
-- cache holds less than six frames before and after.
pub lift_frames-stream_of :
    (s : Lift) (frames : List (ℕ × Bytes))
    → s.cache.num < cache_max_frames
    → ((lift_frames s frames).0.cache.num < cache_max_frames)
      × ((lift_frames s frames).1 ++ held (lift_frames s frames).0.cache
          ≡ held s.cache ++ stream_of s.ah frames)
unfolding lift_frames stream_of
lift_frames-stream_of s [] h = (h, sym (append-nil (held s.cache)))
lift_frames-stream_of s ((dts, b) ∷ fs) h =
    let (num, ah, bytes) = lift_frame_lem s dts b h in
    let (num', bytes') = lift_frames-stream_of (lift_frame s dts b).0 fs num in
    let out = lifted_bytes (lift_frame s dts b).1 in
    let more = stream_of s.ah fs in
    let kept = held (lift_frame s dts b).0.cache in
    let same : stream_of (lift_frame s dts b).0.ah fs ≡ more = ap (λ x. stream_of x fs) ah in
    (
      num',
      append_assoc out (lift_frames (lift_frame s dts b).0 fs).1
            (held (lift_frames (lift_frame s dts b).0 fs).0.cache)
          ∙ ap (λ x. out ++ x) (bytes' ∙ ap (λ x. kept ++ x) same)
          ∙ sym (append_assoc out kept more)
          ∙ ap (λ x. x ++ more) bytes
          ∙ append_assoc (held s.cache) (adts s.ah b ++ b) more,
    )
