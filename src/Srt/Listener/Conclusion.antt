-- ===== src/Srt/Listener/Conclusion.antt =====
-- Who may deliver, and the steps of a conclusion at the session table (libsrt/listener.go,
-- handlePacket and handleHandshake).
use ggmpeg.Prelude.{
  ℕ, ◌≡◌, refl, sym, ◌∙◌, ◌≢◌, inl, inr, true, none, some, List, [], ◌∷◌, arith, Bool-cases,
  Option-cases, Bytes,
}
use ggmpeg.Srt.Packet.{ctrl_handshake, PacketKind, Header, kind_data, kind_control, parse_header}
use ggmpeg.Srt.Handshake.{Handshake, parse_handshake, hs_type_conclusion, marshal_handshake}
use ggmpeg.Srt.Listener.{
  insert_session, find_or_open, step_handshake, put_session, Session, Listener, datagram,
  lookup_session, insert_session, find_or_open, step_handshake, handle_handshake, handle_control,
  handle_data, handle_packet, handle_kind, send_control_packet,
}
use ggmpeg.Srt.Listener.Arq.{payloads}
use ggmpeg.Srt.Listener.Sessions.{lookup_session-insert_session}

payloads-step_handshake :
    (mint : ℕ → ℕ → ℕ → ℕ) (now peer : ℕ) (sess : Session) (hs : Handshake)
    → payloads (step_handshake mint now peer sess hs).1 ≡ []
unfolding payloads step_handshake send_control_packet
payloads-step_handshake mint now peer sess hs = ground arith

payloads-handle_handshake :
    (mint : ℕ → ℕ → ℕ → ℕ) (now peer : ℕ) (l : Listener) (body : Bytes)
    → payloads (handle_handshake mint now peer l body).1 ≡ []
unfolding handle_handshake
payloads-handle_handshake mint now peer l body = elim (Option-cases (parse_handshake body)) [
  | inl e ↦ rw (e, handle_handshake) (unfold payloads in refl)
  | inr (hs, e) ↦ rw (e, handle_handshake) (payloads-step_handshake mint now peer _ hs)
]

payloads-handle_control :
    (mint : ℕ → ℕ → ℕ → ℕ) (now peer : ℕ) (l : Listener) (hdr : Header) (body : Bytes)
    → payloads (handle_control mint now peer l hdr body).1 ≡ []
unfolding handle_control payloads
payloads-handle_control mint now peer l hdr body =
    ground (arith, payloads-handle_handshake mint now peer l body)

abbrev pub HasConcluded : Listener → ℕ → Type 0
HasConcluded l peer =
    (sess : Session) × (lookup_session peer l.sessions ≡ some sess) × (sess.concluded ≡ true)

handle_data_gate :
    (now peer : ℕ) (l : Listener) (hdr : Header) (body : Bytes)
    → payloads (handle_data now peer l hdr body).1 ≢ []
    → HasConcluded l peer
unfolding handle_data
handle_data_gate now peer l hdr body h = elim (Option-cases (lookup_session peer l.sessions)) [
  | inl e ↦ absurd (h (rw (e, handle_data) (unfold payloads in refl)))
  | inr (s, e) ↦ elim (Bool-cases s.concluded) [
    | inl c ↦ (s, e, c)
    | inr c ↦ absurd (h (rw (e, handle_data) (rw c (unfold payloads in refl))))
  ]
]

handle_kind_gate :
    (k : PacketKind) (mint : ℕ → ℕ → ℕ → ℕ) (now peer : ℕ) (l : Listener) (hdr : Header)
    (body : Bytes)
    → payloads (handle_kind k mint now peer l hdr body).1 ≢ []
    → HasConcluded l peer
unfolding handle_kind
handle_kind_gate kind_control mint now peer l hdr body h =
    absurd (h (payloads-handle_control mint now peer l hdr body))
handle_kind_gate kind_data mint now peer l hdr body h = handle_data_gate now peer l hdr body h

-- If a datagram makes the listener hand a payload to the callback, then the peer already had a
-- session, and that session had concluded its handshake.
pub handle_packet_gate :
    (mint : ℕ → ℕ → ℕ → ℕ) (now peer : ℕ) (l : Listener) (raw : Bytes)
    → payloads (handle_packet mint now peer l raw).1 ≢ []
    → HasConcluded l peer
unfolding handle_packet
handle_packet_gate mint now peer l raw h = elim (Option-cases (parse_header raw)) [
  | inl e ↦ absurd (h (rw (e, handle_packet) (unfold payloads in refl)))
  | inr ((hdr, body), e) ↦
      handle_kind_gate hdr.kind mint now peer l hdr body (rw (e, handle_packet) at h)
]

pub handle_handshake_known :
    (mint : ℕ → ℕ → ℕ → ℕ) (now peer : ℕ) (l : Listener) (body : Bytes) (sess : Session)
    (hs : Handshake)
    → lookup_session peer l.sessions ≡ some sess
    → parse_handshake body ≡ some hs
    → handle_handshake mint now peer l body ≡ (
      put_session peer (step_handshake mint now peer sess hs).0 l,
      (step_handshake mint now peer sess hs).1,
    )
unfolding handle_handshake find_or_open
handle_handshake_known mint now peer l body sess hs known parsed =
    rw (parsed, handle_handshake) (rw (known, find_or_open))

pub lookup_session-insert_self :
    (k : ℕ) (s : Session) (m : List (ℕ × Session))
    → lookup_session k (insert_session k s m) ≡ some s
lookup_session-insert_self k s m = ground (arith, lookup_session-insert_session k k s m)

abbrev pub concluded_by : Session → Handshake → Session
concluded_by sess hs = record sess {
  peer_socket_id = hs.srt_socket_id;
  expected_seq = hs.initial_sequence;
  concluded = true;
}

pub step_handshake_reply :
    (mint : ℕ → ℕ → ℕ → ℕ) (now peer : ℕ) (sess : Session) (hs : Handshake)
    → hs.handshake_type ≡ hs_type_conclusion
    → hs.sync_cookie ≡ sess.cookie
    → step_handshake mint now peer sess hs ≡ (
      concluded_by sess hs,
      send_control_packet now peer ctrl_handshake 0 0 (some (concluded_by sess hs)) (
            marshal_handshake (record hs {
              handshake_type = hs_type_conclusion;
              srt_socket_id = sess.our_socket_id;
              extension_field = 0;
            }))
          ∷ [],
    )
unfolding step_handshake
step_handshake_reply mint now peer sess hs c e = ground arith

step_handshake_accepts :
    (mint : ℕ → ℕ → ℕ → ℕ) (now peer : ℕ) (sess : Session) (hs : Handshake)
    → hs.handshake_type ≡ hs_type_conclusion
    → hs.sync_cookie ≡ sess.cookie
    → (raw : Bytes) × (step_handshake mint now peer sess hs
        ≡ (concluded_by sess hs, datagram peer raw ∷ []))
unfolding send_control_packet
step_handshake_accepts mint now peer sess hs c e =
    (_, step_handshake_reply mint now peer sess hs c e)

pub step_handshake_rejects :
    (mint : ℕ → ℕ → ℕ → ℕ) (now peer : ℕ) (sess : Session) (hs : Handshake)
    → hs.handshake_type ≡ hs_type_conclusion
    → hs.sync_cookie ≢ sess.cookie
    → step_handshake mint now peer sess hs ≡ (sess, [])
unfolding step_handshake
step_handshake_rejects mint now peer sess hs c ne = ground arith

find_or_open_unknown :
    (now peer : ℕ) (l : Listener)
    → lookup_session peer l.sessions ≡ none
    → ((find_or_open now peer l).0.cookie ≡ 0)
unfolding find_or_open
find_or_open_unknown now peer l e = rw (e, find_or_open)

-- A peer with no session needs no induction: its conclusion with cookie 0 opens a session that is
-- concluded at once.
pub handle_handshake_skips_induction :
    (mint : ℕ → ℕ → ℕ → ℕ) (now peer : ℕ) (l : Listener) (body : Bytes) (hs : Handshake)
    → lookup_session peer l.sessions ≡ none
    → parse_handshake body ≡ some hs
    → hs.handshake_type ≡ hs_type_conclusion
    → hs.sync_cookie ≡ 0
    → HasConcluded (handle_handshake mint now peer l body).0 peer
unfolding handle_handshake
handle_handshake_skips_induction mint now peer l body hs unknown parsed conclusion zero_cookie =
    let opened = find_or_open now peer l in
    let fresh = find_or_open_unknown now peer l unknown in
    let step =
      step_handshake_accepts mint now peer opened.0 hs conclusion (zero_cookie ∙ sym fresh) in
    (
      concluded_by opened.0 hs,
      rw (parsed, handle_handshake)
          (rw (step.1)
            (lookup_session-insert_self peer (concluded_by opened.0 hs) opened.1.sessions)),
      refl,
    )
