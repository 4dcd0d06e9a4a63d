-- ===== src/Srt/Listener.antt =====
-- libsrt/listener.go: the sessions of one UDP socket, keyed by the peer's address, and the handling
-- of one datagram. The socket, the clock and the cookie mixer are outside: a datagram to send and a
-- payload handed to the callback are outputs, the time in nanoseconds and the cookie function are
-- arguments. An address is a number, as the text of an address is used as a key only.
pub mod Arq
pub mod Conclusion
pub mod Loss
pub mod Sessions
pub mod Exchange
use ggmpeg.Prelude.{
  ℕ, ◌+◌, ◌-◌, ◌/◌, ◌%◌, ◌^◌, Bool, true, false, ◌&&◌, not, Option, none, some, List, [], ◌∷◌, ◌++◌,
  Bytes, ltb, ◌==◌, replicate, if◌then◌else◌,
}
use ggmpeg.Prelude.Int.{ℤ, pos, negsuc}
use ggmpeg.Srt.Packet.{
  Header, PacketKind, kind_data, kind_control, header_size, ctrl_handshake, ctrl_shutdown,
  ctrl_keep_alive, ctrl_nak, ctrl_ack, parse_header, marshal_control_header,
}
use ggmpeg.Srt.Control.{marshal_nak, marshal_ack, seq_diff}
use ggmpeg.Srt.Handshake.{
  Handshake, hs_type_agreement, hs_type_conclusion, parse_handshake, marshal_handshake,
}

pub record Session : Type 0 where
  pub peer_addr : ℕ
  pub peer_socket_id : ℕ
  pub our_socket_id : ℕ
  pub cookie : ℕ
  pub concluded : Bool
  pub start_time : ℕ
  pub last_seen : Option ℕ
  pub stream_id : Bytes
  pub expected_seq : ℕ
  pub ack_num : ℕ
  pub last_ack : Option ℕ
  pub received_seqs : ℕ

-- `has_handler` says whether the callback is set.
pub record Listener : Type 0 where
  pub stream_id : Bytes
  pub has_handler : Bool
  pub sessions : List (ℕ × Session)
  pub socket_id : ℕ

pub data Output : Type 0 where
  datagram : ℕ → Bytes → Output
  delivered : Bytes → Bytes → Output

-- The map `sessions`.
unfoldable pub lookup_session : ℕ → List (ℕ × Session) → Option Session
lookup_session key [] = none
lookup_session key ((k, s) ∷ m) = if k == key then some s else lookup_session key m

unfoldable pub insert_session : ℕ → Session → List (ℕ × Session) → List (ℕ × Session)
insert_session key s [] = (key, s) ∷ []
insert_session key s ((k, t) ∷ m) =
    if k == key then (key, s) ∷ m else (k, t) ∷ insert_session key s m

unfoldable pub delete_session : ℕ → List (ℕ × Session) → List (ℕ × Session)
delete_session key [] = []
delete_session key ((k, t) ∷ m) =
    let rest = delete_session key m in if k == key then rest else (k, t) ∷ rest

-- uint32(time.Since(startTime).Microseconds())
abbrev pub elapsed_us : ℕ → Session → ℕ
elapsed_us now sess = (now - sess.start_time) / 1000 % 2 ^ 32

unfoldable pub send_control_packet : ℕ → ℕ → ℕ → ℕ → ℕ → Option Session → Bytes → Output
send_control_packet now peer ct sub type_info none body =
    datagram peer (marshal_control_header (replicate header_size 0 ++ body) ct sub type_info 0 0)
send_control_packet now peer ct sub type_info (some sess) body = datagram peer (
    marshal_control_header (replicate header_size 0 ++ body) ct sub type_info (elapsed_us now sess)
      sess.peer_socket_id)

unfoldable pub send_nak : ℕ → Session → ℕ → ℕ → Output
send_nak now sess from to =
    send_control_packet now sess.peer_addr ctrl_nak 0 0 (some sess)
      (marshal_nak (record { from = from; to = to } ∷ []))

-- `none` stands for the zero time, which lies further back than any interval.
abbrev pub ack_is_recent : ℕ → Option ℕ → Bool
ack_is_recent now none = false
ack_is_recent now (some t) = ltb (now - t) 10_000_000

unfoldable pub maybe_send_ack : ℕ → Session → Session × List Output
maybe_send_ack now sess =
    if ack_is_recent now sess.last_ack
    then (sess, [])
    else let ack_num = (sess.ack_num + 1) % 2 ^ 32 in
      let body = marshal_ack (record {
        last_acked_seq = sess.expected_seq;
        rtt = 0;
        rtt_variance = 0;
        available_buffer = 0;
        receiving_rate = 0;
        link_capacity = 0;
        receiving_bytes = 0;
      }) in
      let sess' = record sess { last_ack = some now; ack_num = ack_num } in
      (sess', send_control_packet now sess.peer_addr ctrl_ack 0 ack_num (some sess') body ∷ [])

-- The callback's error is dropped by the source.
unfoldable pub deliver : Bool → Session → Bytes → List Output
deliver has_handler sess body = if has_handler then delivered sess.stream_id body ∷ [] else []

-- The first data packet sets the baseline.
abbrev pub adopt_baseline : Session → ℕ → Session
adopt_baseline sess seq =
    if sess.expected_seq == 0 && sess.ack_num == 0 then record sess { expected_seq = seq } else sess

abbrev pub count_packet : Session → Session
count_packet sess = record sess { received_seqs = (sess.received_seqs + 1) % 2 ^ 64 }

-- What follows an accepted packet: the callback, and an acknowledgement if one is due.
unfoldable pub finish_data : ℕ → Bool → Session → Bytes → List Output → Session × List Output
unfolding deliver
finish_data now has_handler sess body nak =
    let (sess', acks) = maybe_send_ack now sess in
    (sess', nak ++ (deliver has_handler sess body ++ acks))

-- The three cases on the distance from the expected number.
unfoldable pub handle_diff : ℤ → ℕ → Bool → Session → ℕ → Bytes → Session × List Output
handle_diff (negsuc _) now has_handler sess seq body = (sess, [])
handle_diff (pos d) now has_handler sess seq body =
    if ltb 0 d
    then (let from = sess.expected_seq in
        let to = (seq + 2 ^ 32 - 1) % 2 ^ 32 in
        let sess' = record sess { expected_seq = (seq + 1) % 2 ^ 32 } in
        finish_data now has_handler sess' body (send_nak now sess' from to ∷ []))
    else finish_data now has_handler
        (record sess { expected_seq = (sess.expected_seq + 1) % 2 ^ 32 }) body []

unfoldable pub handle_data_packet : ℕ → Bool → Session → ℕ → Bytes → Session × List Output
unfolding handle_diff
handle_data_packet now has_handler sess seq body =
    let sess' = adopt_baseline sess seq in
    handle_diff (seq_diff seq sess'.expected_seq) now has_handler (count_packet sess') seq body

-- The session that a handshake works on: the peer's own, or a new one under the next socket id.
unfoldable pub find_or_open : ℕ → ℕ → Listener → Session × Listener
find_or_open now peer l = elim (lookup_session peer l.sessions) [
  | some sess ↦ (sess, l)
  | none ↦
      let sess : Session = record {
        peer_addr = peer;
        peer_socket_id = 0;
        our_socket_id = l.socket_id;
        cookie = 0;
        concluded = false;
        start_time = now;
        last_seen = none;
        stream_id = l.stream_id;
        expected_seq = 0;
        ack_num = 0;
        last_ack = none;
        received_seqs = 0;
      } in
      (
        sess,
        record l {
          socket_id = (l.socket_id + 1) % 2 ^ 32;
          sessions = insert_session peer sess l.sessions;
        },
      )
]

abbrev pub put_session : ℕ → Session → Listener → Listener
put_session peer sess l = record l { sessions = insert_session peer sess l.sessions }

-- The induction and conclusion steps; `mint` is the checksum over address, socket id and time.
unfoldable pub step_handshake :
    (ℕ → ℕ → ℕ → ℕ) → ℕ → ℕ → Session → Handshake → Session × List Output
step_handshake mint now peer sess hs =
    if hs.handshake_type == hs_type_agreement
    then (let cookie = mint peer hs.srt_socket_id now in
        let sess' = record sess { peer_socket_id = hs.srt_socket_id; cookie = cookie } in
        let reply = record hs {
          handshake_type = hs_type_agreement;
          srt_socket_id = sess.our_socket_id;
          sync_cookie = cookie;
        } in
        (
          sess',
          send_control_packet now peer ctrl_handshake 0 0 (some sess') (marshal_handshake reply)
              ∷ [],
        ))
    else if hs.handshake_type == hs_type_conclusion
    then if not (hs.sync_cookie == sess.cookie)
      then (sess, [])
      else (let sess' = record sess {
        peer_socket_id = hs.srt_socket_id;
        expected_seq = hs.initial_sequence;
        concluded = true;
      } in
          let reply = record hs {
            handshake_type = hs_type_conclusion;
            srt_socket_id = sess.our_socket_id;
            extension_field = 0;
          } in
          (
            sess',
            send_control_packet now peer ctrl_handshake 0 0 (some sess') (marshal_handshake reply)
                ∷ [],
          ))
    else (sess, [])

unfoldable pub handle_handshake :
    (ℕ → ℕ → ℕ → ℕ) → ℕ → ℕ → Listener → Bytes → Listener × List Output
unfolding find_or_open step_handshake
handle_handshake mint now peer l body = elim (parse_handshake body) [
  | none ↦ (l, [])
  | some hs ↦
      let (sess, l') = find_or_open now peer l in
      let (sess', out) = step_handshake mint now peer sess hs in (put_session peer sess' l', out)
]

unfoldable pub handle_control :
    (ℕ → ℕ → ℕ → ℕ) → ℕ → ℕ → Listener → Header → Bytes → Listener × List Output
unfolding handle_handshake
handle_control mint now peer l hdr body =
    let sess = lookup_session peer l.sessions in
    let after_handshake = handle_handshake mint now peer l body in
    let after_shutdown : Listener = elim sess [
      | none ↦ l
      | some _ ↦ record l { sessions = delete_session peer l.sessions }
    ] in
    let after_keep_alive : Listener × List Output = elim sess [
      | none ↦ (l, [])
      | some s ↦
          let s' = record s { last_seen = some now } in
          (
            put_session peer s' l,
            datagram peer (
                  marshal_control_header (replicate header_size 0) ctrl_keep_alive 0 0
                    (elapsed_us now s) s.peer_socket_id)
                ∷ [],
          )
    ] in
    if hdr.control_type == ctrl_handshake
    then after_handshake
    else if hdr.control_type == ctrl_shutdown
    then (after_shutdown, [])
    else if hdr.control_type == ctrl_keep_alive
    then after_keep_alive
    else (l, [])

unfoldable pub handle_data : ℕ → ℕ → Listener → Header → Bytes → Listener × List Output
unfolding handle_data_packet
handle_data now peer l hdr body = elim (lookup_session peer l.sessions) [
  | none ↦ (l, [])
  | some sess ↦
      let seen = record sess { last_seen = some now } in
      let (sess', out) = handle_data_packet now l.has_handler seen hdr.seq_number body in
      if not sess.concluded then (l, []) else (put_session peer sess' l, out)
]

unfoldable pub handle_kind :
    PacketKind → (ℕ → ℕ → ℕ → ℕ) → ℕ → ℕ → Listener → Header → Bytes → Listener × List Output
unfolding handle_control handle_data
handle_kind kind_control mint now peer l hdr body = handle_control mint now peer l hdr body
handle_kind kind_data mint now peer l hdr body = handle_data now peer l hdr body

unfoldable pub handle_packet : (ℕ → ℕ → ℕ → ℕ) → ℕ → ℕ → Listener → Bytes → Listener × List Output
unfolding handle_kind
handle_packet mint now peer l raw = elim (parse_header raw) [
  | none ↦ (l, [])
  | some (hdr, body) ↦ handle_kind hdr.kind mint now peer l hdr body
]
