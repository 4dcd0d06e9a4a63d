-- ===== src/Srt/Control/LossList.antt =====
-- ParseNAK on what MarshalNAK writes (libsrt/control.go).
use ggmpeg.Prelude.{
  ℕ, zero, suc, ◌^◌, ◌<◌, ◌≤◌, ◌≡◌, refl, ap, List, [], ◌∷◌, ◌++◌, Bytes, All, length,
  length-append, arith,
}
use ggmpeg.Srt.Control.{LossRange, marshal_loss, marshal_nak, parse_nak_loop, parse_nak}

abbrev pub IsRange31 : LossRange → Type 0
IsRange31 lr = (lr.from < 2 ^ 31) × (lr.to < 2 ^ 31)

parse_nak_loop_step :
    (lr : LossRange) (rest : Bytes) (fuel : ℕ)
    → IsRange31 lr
    → parse_nak_loop (suc fuel) (marshal_loss lr ++ rest) ≡ lr ∷ parse_nak_loop fuel rest
unfolding parse_nak_loop marshal_loss
parse_nak_loop_step lr rest fuel h = ground arith

length-marshal_loss : (lr : LossRange) → 4 ≤ length (marshal_loss lr)
unfolding marshal_loss
length-marshal_loss lr = ground arith

parse_nak_loop-marshal_nak :
    (losses : List LossRange) (fuel : ℕ)
    → All IsRange31 losses
    → length (marshal_nak losses) ≤ fuel
    → parse_nak_loop fuel (marshal_nak losses) ≡ losses
unfolding marshal_nak
parse_nak_loop-marshal_nak [] zero h hf = unfold parse_nak_loop in refl
parse_nak_loop-marshal_nak [] (suc fuel) h hf = unfold parse_nak_loop in refl
parse_nak_loop-marshal_nak (lr ∷ losses) zero h hf =
    absurd
      (omega (arith, length-marshal_loss lr, length-append (marshal_loss lr) (marshal_nak losses)))
parse_nak_loop-marshal_nak (lr ∷ losses) (suc fuel) (h, hs) hf =
    rw (parse_nak_loop_step lr (marshal_nak losses) fuel h) (
      ap (λ t. lr ∷ t)
        (parse_nak_loop-marshal_nak losses fuel hs (
          omega
            (arith, length-marshal_loss lr, length-append (marshal_loss lr) (marshal_nak losses)))))

-- A loss list of single numbers and ranges, each end below 2 ^ 31, is read back unchanged.
pub parse_nak-marshal_nak :
    (losses : List LossRange) → All IsRange31 losses → parse_nak (marshal_nak losses) ≡ losses
unfolding parse_nak
parse_nak-marshal_nak losses h = parse_nak_loop-marshal_nak losses _ h (omega arith)
