-- ===== src/Srt/Listener/Loss.antt =====
-- What the receiver reports of a gap, and what it does with a repeated packet (libsrt/listener.go,
-- handleDataPacket and sendNAK).
use ggmpeg.Prelude.{
  ℕ, zero, suc, ◌+◌, ◌-◌, ◌%◌, ◌^◌, ◌≤◌, ◌<◌, ◌≡◌, refl, ap, ◌∙◌, ◌⊎◌, inl, inr, true, some, List,
  [], ◌∷◌, arith, Bytes,
}
use mathlib.Core.Path.{subst}
use ggmpeg.Prelude.Int.{ℤ, pos, negsuc}
use ggmpeg.Srt.Packet.{Header, parse_header, ctrl_nak}
use ggmpeg.Srt.Packet.RoundTrip.{parse_header-marshal_control_header}
use ggmpeg.Srt.Control.{seq_diff, parse_nak, parse_nak_loop, marshal_nak, marshal_loss}
use ggmpeg.Srt.Listener.{
  Session, Output, datagram, finish_data, handle_diff, handle_data_packet, send_nak,
  send_control_packet, count_packet, elapsed_us,
}
use ggmpeg.Srt.Listener.Arq.{
  finish_data_lem, payloads-send_nak, IsBased, payloads, handle_data_packet_lem, handle_diff_gap,
  adopt_baseline-IsBased,
}

parse_nak_one :
    (from to : ℕ)
    → parse_nak (marshal_nak (record { from = from; to = to } ∷ []))
      ≡ record { from = from % 2 ^ 31; to = to % 2 ^ 31 } ∷ []
unfolding parse_nak parse_nak_loop marshal_nak marshal_loss
parse_nak_one from to = ground arith

-- A control packet to a peer, read back.
abbrev pub IsNakOf : Session → ℕ → ℕ → Bytes → Type 0
IsNakOf sess from to raw =
    (hdr : Header) × (body : Bytes) × (parse_header raw ≡ some (hdr, body))
    × (hdr.control_type ≡ ctrl_nak)
    × (hdr.dest_socket_id ≡ sess.peer_socket_id)
    × (parse_nak body ≡ record { from = from; to = to } ∷ [])

send_nak_lem :
    (now : ℕ) (sess : Session) (from to : ℕ)
    → sess.peer_socket_id < 2 ^ 32
    → (raw : Bytes) × (send_nak now sess from to ≡ datagram sess.peer_addr raw)
      × IsNakOf sess (from % 2 ^ 31) (to % 2 ^ 31) raw
unfolding send_nak send_control_packet
send_nak_lem now sess from to h = (
  _,
  refl,
  (
    _,
    _,
    parse_header-marshal_control_header _ ctrl_nak 0 0 (elapsed_us now sess) sess.peer_socket_id
        (omega arith) (omega arith) (omega arith) (omega arith) (omega arith) h,
    refl,
    refl,
    parse_nak_one from to,
  ),
)

finish_data-nak :
    (now : ℕ) (sess : Session) (body : Bytes) (nak : Output)
    → (rest : List Output) × ((finish_data now true sess body (nak ∷ [])).1 ≡ nak ∷ rest)
unfolding finish_data
finish_data-nak now sess body nak = (_, refl)

-- When a data packet is ahead of the expected number, and the session is past its baseline (the
-- expected number or the count of acknowledgements is not 0), the first output is a datagram to the
-- session's peer that parses as a NAK control packet for the peer's socket, and its loss list is the
-- one range from the expected number to the number before the packet's, both taken modulo 2 ^ 31. The
-- packet's number fits 31 bits and the peer's socket id 32.
pub handle_data_packet_gap :
    (now d : ℕ) (sess : Session) (seq : ℕ) (body : Bytes)
    → IsBased sess
    → seq < 2 ^ 31
    → sess.peer_socket_id < 2 ^ 32
    → seq_diff seq sess.expected_seq ≡ pos (suc d)
    → (raw : Bytes) × (rest : List Output) × ((handle_data_packet now true sess seq body).1
        ≡ datagram sess.peer_addr raw ∷ rest)
      × IsNakOf sess (sess.expected_seq % 2 ^ 31) ((seq + 2 ^ 31 - 1) % 2 ^ 31) raw
unfolding handle_data_packet
handle_data_packet_gap now d sess seq body hb hs hp e =
    let sess' = record (count_packet sess) { expected_seq = (seq + 1) % 2 ^ 32 } in
    let to = (seq + 2 ^ 32 - 1) % 2 ^ 32 in
    let sent = send_nak_lem now sess' sess.expected_seq to hp in
    let done = finish_data-nak now sess' body (send_nak now sess' sess.expected_seq to) in
    (
      sent.0,
      done.0,
      rw (adopt_baseline-IsBased sess seq hb, e)
          (ap (λ (r : Session × List Output). r.1)
              (handle_diff_gap d now (count_packet sess) seq body)
            ∙ done.1
            ∙ ap (λ t. t ∷ done.0) sent.1),
      subst (λ (t : ℕ). IsNakOf sess (sess.expected_seq % 2 ^ 31) t sent.0) wrap sent.2,
    )
  where
    wrap : (seq + 2 ^ 32 - 1) % 2 ^ 32 % 2 ^ 31 ≡ (seq + 2 ^ 31 - 1) % 2 ^ 31
    wrap = omega arith

seq_diff_successor :
    (e seq : ℕ)
    → seq < 2 ^ 31
    → e < 2 ^ 32
    → e % 2 ^ 31 ≡ (seq + 1) % 2 ^ 31
    → seq_diff seq e ≡ negsuc 0
unfolding seq_diff
seq_diff_successor e seq hs he h = ground arith

ℤ-cases : (z : ℤ) → ((n : ℕ) × (z ≡ negsuc n)) ⊎ ((d : ℕ) × (z ≡ pos d))
ℤ-cases (pos d) = inr (d, refl)
ℤ-cases (negsuc n) = inl (n, refl)

seq_diff-cases :
    (a b : ℕ) → ((n : ℕ) × (seq_diff a b ≡ negsuc n)) ⊎ ((d : ℕ) × (seq_diff a b ≡ pos d))
seq_diff-cases a b = ℤ-cases (seq_diff a b)

-- After a packet that is not late the next expected number is not 0, so there is no new baseline.
handle_diff_based :
    (d now : ℕ) (sess : Session) (seq : ℕ) (body : Bytes)
    → seq < 2 ^ 31
    → sess.expected_seq ≤ 2 ^ 31
    → (0 < (handle_diff (pos d) now true sess seq body).0.expected_seq)
      × ((handle_diff (pos d) now true sess seq body).0.expected_seq < 2 ^ 32)
unfolding handle_diff
handle_diff_based zero now sess seq body hs he = omega (
  arith,
  (finish_data_lem now (record sess { expected_seq = (sess.expected_seq + 1) % 2 ^ 32 }) body []
      (unfold payloads in refl)).1,
)
handle_diff_based (suc d) now sess seq body hs he =
    let sess' = record sess { expected_seq = (seq + 1) % 2 ^ 32 } in
    let to = (seq + 2 ^ 32 - 1) % 2 ^ 32 in
    let done =
      finish_data_lem now sess' body (send_nak now sess' sess.expected_seq to ∷ [])
        (payloads-send_nak now sess' sess.expected_seq to) in
    rw (handle_diff_gap d now sess seq body) (omega (arith, done.1))

late_is_silent :
    (now n : ℕ) (sess : Session) (seq : ℕ) (body : Bytes)
    → IsBased sess
    → seq_diff seq sess.expected_seq ≡ negsuc n
    → handle_data_packet now true sess seq body ≡ (count_packet sess, [])
unfolding handle_data_packet
late_is_silent now n sess seq body hb e = rw (adopt_baseline-IsBased sess seq hb, e)

-- A packet number is handed over at most once: when a second data packet with the number of the one
-- before arrives, whatever the first was (late, expected or ahead), it has no output at all. The
-- expected number before the two is at most 2 ^ 31, and past the baseline.
pub handle_data_packet_again :
    (now now' : ℕ) (sess : Session) (seq : ℕ) (body body' : Bytes)
    → IsBased sess
    → seq < 2 ^ 31
    → sess.expected_seq ≤ 2 ^ 31
    → (handle_data_packet now' true (handle_data_packet now true sess seq body).0 seq body').1 ≡ []
handle_data_packet_again now now' sess seq body body' hb hs he =
    elim (seq_diff-cases seq sess.expected_seq) [
      | inl (n, e) ↦
          rw (late_is_silent now n sess seq body hb e)
            (rw (late_is_silent now' n (count_packet sess) seq body' hb e))
      | inr (d, e) ↦
          let first = handle_data_packet now true sess seq body in
          let based : (0 < first.0.expected_seq) × (first.0.expected_seq < 2 ^ 32) =
            unfold handle_data_packet in
            rw (adopt_baseline-IsBased sess seq hb, e)
              (handle_diff_based d now (count_packet sess) seq body hs he) in
          let next = (handle_data_packet_lem now sess seq body hb hs (omega arith)).1 d e in
          rw (
            late_is_silent now' 0 first.0 seq body' (inl based.0)
              (seq_diff_successor first.0.expected_seq seq hs based.1 next.1))
    ]
