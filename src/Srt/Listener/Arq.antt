-- ===== src/Srt/Listener/Arq.antt =====
-- The receiver of data packets: late, expected and early numbers (libsrt/listener.go,
-- handleDataPacket, sendNAK, maybeSendACK).
use ggmpeg.Prelude.{
  lt→ltb, ℕ, zero, suc, ◌+◌, ◌-◌, ◌%◌, ◌^◌, ◌<◌, ◌≡◌, refl, ap, ◌⊎◌, true, List, [], ◌∷◌, ◌++◌,
  arith, Bytes,
}
use ggmpeg.Prelude.Int.{pos, negsuc}
use ggmpeg.Srt.Control.{seq_diff}
use ggmpeg.Srt.Listener.{
  Session, Output, datagram, delivered, maybe_send_ack, deliver, adopt_baseline, count_packet,
  finish_data, handle_diff, handle_data_packet, send_nak, send_control_packet,
}

-- The payloads that outputs hand to the callback, in order.
unfoldable pub payloads : List Output → List Bytes
payloads [] = []
payloads (datagram _ _ ∷ out) = payloads out
payloads (delivered _ body ∷ out) = body ∷ payloads out

maybe_send_ack_lem :
    (now : ℕ) (sess : Session)
    → ((maybe_send_ack now sess).0.expected_seq ≡ sess.expected_seq)
      × (payloads (maybe_send_ack now sess).1 ≡ [])
      × ((maybe_send_ack now sess).0.received_seqs ≡ sess.received_seqs)
unfolding maybe_send_ack payloads send_control_packet
maybe_send_ack_lem now sess = ground arith

payloads-append : (xs ys : List Output) → payloads (xs ++ ys) ≡ payloads xs ++ payloads ys
unfolding payloads
payloads-append [] ys = refl
payloads-append (datagram _ _ ∷ xs) ys = payloads-append xs ys
payloads-append (delivered _ body ∷ xs) ys = ap (λ t. body ∷ t) (payloads-append xs ys)

pub finish_data_lem :
    (now : ℕ) (sess : Session) (body : Bytes) (nak : List Output)
    → payloads nak ≡ []
    → (payloads (finish_data now true sess body nak).1 ≡ body ∷ [])
      × ((finish_data now true sess body nak).0.expected_seq ≡ sess.expected_seq)
unfolding finish_data deliver payloads
finish_data_lem now sess body nak h = (
  rw (payloads-append, h) (rw ((maybe_send_ack_lem now sess).1)),
  (maybe_send_ack_lem now sess).0,
)

-- Past the baseline: the session has seen a packet, or its handshake gave a number other than 0.
abbrev pub IsBased : Session → Type 0
IsBased sess = (0 < sess.expected_seq) ⊎ (0 < sess.ack_num)

pub adopt_baseline-IsBased :
    (sess : Session) (seq : ℕ) → IsBased sess → adopt_baseline sess seq ≡ sess
adopt_baseline-IsBased sess seq h = ground arith

seq_diff_zero : (a b : ℕ) → seq_diff a b ≡ pos 0 → a < 2 ^ 31 → b < 2 ^ 32 → a ≡ b % 2 ^ 31
unfolding seq_diff
seq_diff_zero a b h ha hb = ground arith

pub payloads-send_nak :
    (now : ℕ) (sess : Session) (from to : ℕ) → payloads (send_nak now sess from to ∷ []) ≡ []
unfolding payloads send_nak send_control_packet
payloads-send_nak now sess from to = refl

pub handle_diff_gap :
    (d now : ℕ) (sess : Session) (seq : ℕ) (body : Bytes)
    → handle_diff (pos (suc d)) now true sess seq body
      ≡ finish_data now true
          (record sess { expected_seq = (seq + 1) % 2 ^ 32 })
          body
          (send_nak now
              (record sess { expected_seq = (seq + 1) % 2 ^ 32 })
              sess.expected_seq
              ((seq + 2 ^ 32 - 1) % 2 ^ 32)
            ∷ [])
unfolding handle_diff
handle_diff_gap d now sess seq body = rw (lt→ltb 0 (suc d) (omega arith))

handle_diff_pos :
    (d now : ℕ) (sess : Session) (seq : ℕ) (body : Bytes)
    → seq_diff seq sess.expected_seq ≡ pos d
    → seq < 2 ^ 31
    → sess.expected_seq < 2 ^ 32
    → (payloads (handle_diff (pos d) now true sess seq body).1 ≡ body ∷ [])
      × ((handle_diff (pos d) now true sess seq body).0.expected_seq % 2 ^ 31 ≡ (seq + 1) % 2 ^ 31)
unfolding handle_diff
handle_diff_pos zero now sess seq body h hs he =
    let sess' = record sess { expected_seq = (sess.expected_seq + 1) % 2 ^ 32 } in
    let done = finish_data_lem now sess' body [] (unfold payloads in refl) in
    (done.0, omega (arith, done.1, seq_diff_zero seq sess.expected_seq h hs he))
handle_diff_pos (suc d) now sess seq body h hs he =
    let sess' = record sess { expected_seq = (seq + 1) % 2 ^ 32 } in
    let to = (seq + 2 ^ 32 - 1) % 2 ^ 32 in
    let done =
      finish_data_lem now sess' body (send_nak now sess' sess.expected_seq to ∷ [])
        (payloads-send_nak now sess' sess.expected_seq to) in
    rw (handle_diff_gap d now sess seq body) (done.0, omega (arith, done.1))

-- For a session past its baseline, a data packet behind the expected number is counted and has no
-- other effect; any other one is handed to the callback exactly once, and the next expected number
-- is its successor on the circle of 31-bit numbers.
pub handle_data_packet_lem :
    (now : ℕ) (sess : Session) (seq : ℕ) (body : Bytes)
    → IsBased sess
    → seq < 2 ^ 31
    → sess.expected_seq < 2 ^ 32
    → ((n : ℕ)
        → seq_diff seq sess.expected_seq ≡ negsuc n
        → handle_data_packet now true sess seq body ≡ (count_packet sess, []))
      × ((d : ℕ)
          → seq_diff seq sess.expected_seq ≡ pos d
          → (payloads (handle_data_packet now true sess seq body).1 ≡ body ∷ [])
            × ((handle_data_packet now true sess seq body).0.expected_seq % 2 ^ 31
                ≡ (seq + 1) % 2 ^ 31))
unfolding handle_data_packet
handle_data_packet_lem now sess seq body hb hs he = (
  λ n e. rw (adopt_baseline-IsBased sess seq hb, e),
  λ d e.
      rw (adopt_baseline-IsBased sess seq hb, e)
        (handle_diff_pos d now (count_packet sess) seq body e hs he),
)

-- Consecutive data packets, each at its time.
unfoldable pub receive_run : Session → ℕ → List (ℕ × Bytes) → Session × List Output
receive_run sess seq [] = (sess, [])
receive_run sess seq ((now, body) ∷ rest) =
    let (sess', out) = handle_data_packet now true sess seq body in
    let (sess'', out') = receive_run sess' ((seq + 1) % 2 ^ 31) rest in (sess'', out ++ out')

abbrev pub bodies : List (ℕ × Bytes) → List Bytes
bodies [] = []
bodies ((now, body) ∷ rest) = body ∷ bodies rest

seq_diff_same : (b : ℕ) → b < 2 ^ 32 → seq_diff (b % 2 ^ 31) b ≡ pos 0
unfolding seq_diff
seq_diff_same b h = ground arith

handle_data_packet_expected :
    (now : ℕ) (sess : Session) (seq : ℕ) (body : Bytes)
    → sess.expected_seq < 2 ^ 32
    → seq ≡ sess.expected_seq % 2 ^ 31
    → (payloads (handle_data_packet now true sess seq body).1 ≡ body ∷ [])
      × ((handle_data_packet now true sess seq body).0.expected_seq
          ≡ (sess.expected_seq + 1) % 2 ^ 32)
unfolding handle_data_packet
handle_data_packet_expected now sess seq body h e =
    rw (same, zero_diff)
      (finish_data_lem now
        (record (count_packet sess) { expected_seq = (sess.expected_seq + 1) % 2 ^ 32 }) body []
        (unfold payloads in refl))
  where
    same : adopt_baseline sess seq ≡ sess
    same = ground arith

    zero_diff : seq_diff seq sess.expected_seq ≡ pos 0
    zero_diff = rw e (seq_diff_same sess.expected_seq h)

-- A run of packets that starts at the expected number and goes on without a gap, over any number of
-- wraps of the 31-bit number, is handed to the callback whole and in order.
pub payloads-receive_run :
    (sess : Session) (seq : ℕ) (run : List (ℕ × Bytes))
    → sess.expected_seq < 2 ^ 32
    → seq ≡ sess.expected_seq % 2 ^ 31
    → payloads (receive_run sess seq run).1 ≡ bodies run
unfolding receive_run
payloads-receive_run sess seq [] h e = unfold payloads in refl
payloads-receive_run sess seq ((now, body) ∷ rest) h e =
    let step = handle_data_packet_expected now sess seq body h e in
    let sess' = (handle_data_packet now true sess seq body).0 in
    rw (payloads-append, step.0)
      (ap (λ t. body ∷ t)
        (payloads-receive_run sess' ((seq + 1) % 2 ^ 31) rest (omega (arith, step.1))
          (omega (arith, step.1))))
