-- ===== src/Srt/Tests.antt =====
-- Concrete runs of libsrt's models, and the theorems at concrete inputs.
use ggmpeg.Prelude.{
  ℕ, ◌+◌, ◌-◌, ◌%◌, ◌^◌, ◌≡◌, refl, inl, true, false, none, some, List, [], ◌∷◌, ◌++◌, arith,
  replicate, Bytes,
}
use ggmpeg.Prelude.Int.{pos, negsuc}
use ggmpeg.Srt.Packet.{parse_header, marshal_data_header}
use ggmpeg.Srt.Control.{LossRange, seq_diff, marshal_nak}
use ggmpeg.Srt.Handshake.{Handshake}
use ggmpeg.Srt.Listener.{
  Session, Listener, Output, datagram, handle_packet, handle_data_packet, count_packet,
  lookup_session, send_control_packet, maybe_send_ack, finish_data,
}
use ggmpeg.Srt.Listener.Arq.{payloads, receive_run, handle_data_packet_lem, payloads-receive_run}
use ggmpeg.Srt.Listener.Loss.{IsNakOf, handle_data_packet_gap, handle_data_packet_again}
use ggmpeg.Srt.Listener.Sessions.{handle_packet_other}
use ggmpeg.Srt.Listener.Exchange.{IsAnswer, request, is_concluded, handle_packet_exchange}
use ggmpeg.Srt.Listener.Conclusion.{HasConcluded, handle_packet_gate}

abbrev blank : Bytes
blank = replicate 16 0 ++ (7 ∷ 8 ∷ [])

abbrev losses : List LossRange
losses = record { from = 3; to = 3 } ∷ record { from = 9; to = 12 } ∷ []

marshal_nak-losses : marshal_nak losses ≡ 0 ∷ 0 ∷ 0 ∷ 3 ∷ 128 ∷ 0 ∷ 0 ∷ 9 ∷ 0 ∷ 0 ∷ 0 ∷ 12 ∷ []
unfolding marshal_nak
marshal_nak-losses = refl

seq_diff-wrap : seq_diff 1 2147483647 ≡ pos 2
unfolding seq_diff
seq_diff-wrap = refl

abbrev hello : Handshake
hello = record {
  version = 5;
  encryption_field = 0;
  extension_field = 2;
  initial_sequence = 77;
  max_packet_size = 1500;
  max_flow_window = 8192;
  handshake_type = 2 ^ 32 - 1;
  srt_socket_id = 42;
  sync_cookie = 0;
  peer_ip = replicate 16 1;
}

-- A concluded session that expects number 77.
abbrev live : Session
live = record {
  peer_addr = 1;
  peer_socket_id = 42;
  our_socket_id = 7;
  cookie = 99;
  concluded = true;
  start_time = 0;
  last_seen = none;
  stream_id = [];
  expected_seq = 77;
  ack_num = 0;
  last_ack = none;
  received_seqs = 0;
}

handle_data_packet_lem_example :
    ((n : ℕ)
      → seq_diff 80 77 ≡ negsuc n
      → handle_data_packet 5 true live 80 (1 ∷ []) ≡ (count_packet live, []))
    × ((d : ℕ)
        → seq_diff 80 77 ≡ pos d
        → (payloads (handle_data_packet 5 true live 80 (1 ∷ [])).1 ≡ (1 ∷ []) ∷ [])
          × ((handle_data_packet 5 true live 80 (1 ∷ [])).0.expected_seq % 2 ^ 31
              ≡ (80 + 1) % 2 ^ 31))
handle_data_packet_lem_example =
    handle_data_packet_lem 5 live 80 (1 ∷ []) (inl (omega arith)) (omega arith) (omega arith)

payloads-receive_run_example :
    payloads (receive_run live 77 ((0, 1 ∷ []) ∷ (5, 2 ∷ []) ∷ [])).1 ≡ (1 ∷ []) ∷ (2 ∷ []) ∷ []
payloads-receive_run_example =
    payloads-receive_run live 77 ((0, 1 ∷ []) ∷ (5, 2 ∷ []) ∷ []) (omega arith) refl

handle_data_packet_gap_example :
    (raw : Bytes) × (rest : List Output) × ((handle_data_packet 5 true live 80 (1 ∷ [])).1
      ≡ datagram 1 raw ∷ rest)
    × IsNakOf live 77 79 raw
handle_data_packet_gap_example =
    handle_data_packet_gap 5 2 live 80 (1 ∷ []) (inl (omega arith)) (omega arith) (omega arith)
      (unfold seq_diff in refl)

handle_data_packet_again_example :
    (handle_data_packet 9 true (handle_data_packet 5 true live 80 (1 ∷ [])).0 80 (2 ∷ [])).1 ≡ []
handle_data_packet_again_example =
    handle_data_packet_again 5 9 live 80 (1 ∷ []) (2 ∷ []) (inl (omega arith)) (omega arith)
      (omega arith)

abbrev one_peer : Listener
one_peer = record { stream_id = []; has_handler = true; sessions = (1, live) ∷ []; socket_id = 8 }

abbrev mixer : ℕ → ℕ → ℕ → ℕ
mixer a s t = a + s + t

abbrev data_77 : Bytes
data_77 = marshal_data_header (replicate 16 0 ++ (5 ∷ [])) 77 0 0 7

handle_packet_other_example :
    lookup_session 2 (handle_packet mixer 5 1 one_peer data_77).0.sessions
    ≡ lookup_session 2 one_peer.sessions
handle_packet_other_example =
    handle_packet_other mixer 5 1 2 (λ e. absurd (omega (arith, e))) one_peer data_77

payloads-data_77 : payloads (handle_packet mixer 5 1 one_peer data_77).1 ≡ (5 ∷ []) ∷ []
unfolding payloads handle_packet parse_header marshal_data_header lookup_session seq_diff
    finish_data maybe_send_ack send_control_packet
payloads-data_77 = refl

handle_packet_gate_example : HasConcluded one_peer 1
handle_packet_gate_example =
    handle_packet_gate mixer 5 1 one_peer data_77 (λ e. cc (e, payloads-data_77))

abbrev induction : Handshake
induction = record hello { handshake_type = 1 }

abbrev empty_listener : Listener
empty_listener = record { stream_id = []; has_handler = true; sessions = []; socket_id = 8 }

-- The cookie of the induction is 42 and 1 and 5; the conclusion `hello` carries 0.
handle_packet_exchange_example :
    let first = handle_packet mixer 5 1 empty_listener (request 0 induction) in
    let returned = record hello { sync_cookie = 48 } in
    let second = handle_packet mixer 6 1 first.0 (request 1 returned) in
    (offer : Bytes) × (answer : Bytes) × (sess : Session) × (first.1 ≡ datagram 1 offer ∷ [])
    × IsAnswer offer 42 (record induction { srt_socket_id = 8; sync_cookie = 48 })
    × (is_concluded 1 (handle_packet mixer 6 1 first.0 (request 1 hello)).0 ≡ false)
    × (second.1 ≡ datagram 1 answer ∷ [])
    × IsAnswer answer 42 (record returned { srt_socket_id = 8; extension_field = 0 })
    × (lookup_session 1 second.0.sessions ≡ some sess)
    × (sess.concluded ≡ true)
    × (sess.peer_socket_id ≡ 42)
    × (sess.expected_seq ≡ 77)
handle_packet_exchange_example =
    handle_packet_exchange mixer 5 6 0 1 1 empty_listener induction hello (omega arith)
      (omega arith) refl refl (unfold lookup_session in refl) (omega arith) (omega arith)
      (omega arith) (omega arith)
