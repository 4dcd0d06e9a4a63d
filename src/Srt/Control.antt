-- ===== src/Srt/Control.antt =====
-- libsrt/control.go: acknowledgement bodies, loss lists and sequence arithmetic.
use ggmpeg.Prelude.{
  ℕ, zero, suc, ◌+◌, ◌-◌, ◌*◌, ◌/◌, ◌%◌, ◌^◌, Bool, List, [], ◌∷◌, ◌++◌, Bytes, ltb, leb, ◌==◌,
  length, drop, has_bit, put_be32, be32_at, if◌then◌else◌,
}
use ggmpeg.Prelude.Int.{ℤ, pos, negsuc}
pub mod LossList
pub mod Sequence

pub record AckBody : Type 0 where
  pub last_acked_seq : ℕ
  pub rtt : ℕ
  pub rtt_variance : ℕ
  pub available_buffer : ℕ
  pub receiving_rate : ℕ
  pub link_capacity : ℕ
  pub receiving_bytes : ℕ

unfoldable pub marshal_ack : AckBody → Bytes
marshal_ack a =
    put_be32 a.last_acked_seq
    ++ (put_be32 a.rtt
        ++ (put_be32 a.rtt_variance
            ++ (put_be32 a.available_buffer
                ++ (put_be32 a.receiving_rate
                    ++ (put_be32 a.link_capacity ++ put_be32 a.receiving_bytes)))))

pub record LossRange : Type 0 where
  pub from : ℕ
  pub to : ℕ

-- `x | 0x80000000` on 32 bits.
abbrev pub set_top : ℕ → ℕ
set_top x = x % 2 ^ 31 + 2 ^ 31

unfoldable pub marshal_loss : LossRange → Bytes
marshal_loss lr =
    if lr.from == lr.to
    then put_be32 (lr.from % 2 ^ 31)
    else put_be32 (set_top lr.from) ++ put_be32 (lr.to % 2 ^ 31)

unfoldable pub marshal_nak : List LossRange → Bytes
unfolding marshal_loss
marshal_nak [] = []
marshal_nak (lr ∷ losses) = marshal_loss lr ++ marshal_nak losses

-- The loop of ParseNAK over `body[off:]`. Each round takes four bytes at least.
unfoldable pub parse_nak_loop : ℕ → Bytes → List LossRange
parse_nak_loop zero b = []
parse_nak_loop (suc fuel) b =
    let w = be32_at b 0 in
    let after_range = parse_nak_loop fuel (drop 8 b) in
    let after_single = parse_nak_loop fuel (drop 4 b) in
    if ltb (length b) 4
    then []
    else if has_bit w 31
    then if ltb (length b) 8
      then []
      else record { from = w % 2 ^ 31; to = be32_at b 4 } ∷ after_range
    else record { from = w; to = w } ∷ after_single

unfoldable pub parse_nak : Bytes → List LossRange
unfolding parse_nak_loop
parse_nak body = parse_nak_loop (length body) body

-- a - b in 31-bit sequence arithmetic, as an int32.
unfoldable pub seq_diff : ℕ → ℕ → ℤ
seq_diff a b =
    let mask : ℕ = 2 ^ 31 - 1 in
    let d = (a + 2 ^ 32 - b) % 2 ^ 32 % 2 ^ 31 in
    if ltb (2 ^ 30) d then negsuc (mask - d) else pos d
