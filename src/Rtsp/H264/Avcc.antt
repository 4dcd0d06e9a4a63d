-- ===== src/Rtsp/H264/Avcc.antt =====
-- SplitAVCC on what AVCCFromNALs joins (librtsp/h264.go, librtsp/rtp_unpack.go).
use ggmpeg.Prelude.{
  ℕ, zero, suc, ◌^◌, ◌≤◌, ◌<◌, ◌≡◌, refl, ap, ◌∙◌, List, [], ◌∷◌, ◌++◌, arith, length,
  length-append, take-append_left, drop-append_left, Bytes, All, put_be32, be32_at,
}
use ggmpeg.Rtsp.H264.{split_avcc_loop, split_avcc, avcc_from_nals}

-- A length that the 4-byte prefix can hold, and not 0.
abbrev pub FitsPrefix : Bytes → Type 0
FitsPrefix n = (0 < length n) × (length n < 2 ^ 32)

split_avcc_loop_step :
    (n rest : Bytes) (fuel : ℕ)
    → FitsPrefix n
    → split_avcc_loop (suc fuel) (put_be32 (length n) ++ (n ++ rest))
      ≡ n ∷ split_avcc_loop fuel rest
unfolding split_avcc_loop
split_avcc_loop_step n rest fuel h =
    rw (prefix, take-append_left n rest (length n) refl, drop-append_left n rest (length n) refl)
      (ground (arith, length-append n rest))
  where
    prefix : be32_at (put_be32 (length n) ++ (n ++ rest)) 0 ≡ length n
    prefix = omega arith

split_avcc_loop-avcc_from_nals :
    (nals : List Bytes) (fuel : ℕ)
    → All FitsPrefix nals
    → length (avcc_from_nals nals) ≤ fuel
    → split_avcc_loop fuel (avcc_from_nals nals) ≡ nals
unfolding avcc_from_nals
split_avcc_loop-avcc_from_nals [] zero h hf = unfold split_avcc_loop in refl
split_avcc_loop-avcc_from_nals [] (suc fuel) h hf = unfold split_avcc_loop in refl
split_avcc_loop-avcc_from_nals (n ∷ nals) zero h hf = absurd (omega arith)
split_avcc_loop-avcc_from_nals (n ∷ nals) (suc fuel) (h, hs) hf =
    split_avcc_loop_step n (avcc_from_nals nals) fuel h
    ∙ ap (λ t. n ∷ t)
        (split_avcc_loop-avcc_from_nals nals fuel hs
          (omega (arith, length-append n (avcc_from_nals nals))))

-- `SplitAVCC` gives back the NAL units that `AVCCFromNALs` joined, in order, if none is empty and
-- each is shorter than 2 ^ 32 bytes.
pub split_avcc-avcc_from_nals :
    (nals : List Bytes) → All FitsPrefix nals → split_avcc (avcc_from_nals nals) ≡ nals
unfolding split_avcc
split_avcc-avcc_from_nals nals h = split_avcc_loop-avcc_from_nals nals _ h (omega arith)
