-- ===== src/Srt/Listener/Sessions.antt =====
-- The session table under one datagram: isolation of peers, and who may deliver (libsrt/listener.go,
-- handlePacket and handleHandshake).
use ggmpeg.Prelude.{
  ℕ, ◌≡◌, refl, ◌∙◌, ◌≢◌, inl, inr, none, some, List, [], ◌∷◌, arith, ◌==◌, if◌then◌else◌,
  Bool-cases, Option-cases, Bytes,
}
use ggmpeg.Srt.Packet.{PacketKind, Header, kind_data, kind_control, parse_header}
use ggmpeg.Srt.Handshake.{parse_handshake}
use ggmpeg.Srt.Listener.{
  Session, Listener, lookup_session, insert_session, delete_session, find_or_open, handle_handshake,
  handle_control, handle_data, handle_packet, handle_kind,
}

pub lookup_session-insert_session :
    (k j : ℕ) (s : Session) (m : List (ℕ × Session))
    → lookup_session j (insert_session k s m) ≡ (if k == j then some s else lookup_session j m)
unfolding lookup_session insert_session
lookup_session-insert_session k j s [] = refl
lookup_session-insert_session k j s ((i, t) ∷ m) =
    ground (arith, lookup_session-insert_session k j s m)

lookup_session-delete_session :
    (k j : ℕ) (m : List (ℕ × Session))
    → lookup_session j (delete_session k m) ≡ (if k == j then none else lookup_session j m)
unfolding lookup_session delete_session
lookup_session-delete_session k j [] = ground arith
lookup_session-delete_session k j ((i, t) ∷ m) = ground (arith, lookup_session-delete_session k j m)

module _ (mint : ℕ → ℕ → ℕ → ℕ) (now peer other : ℕ) (ne : peer ≢ other) where
  insert_other :
      (s : Session) (m : List (ℕ × Session))
      → lookup_session other (insert_session peer s m) ≡ lookup_session other m
  insert_other s m = ground (arith, lookup_session-insert_session peer other s m)

  delete_other :
      (m : List (ℕ × Session))
      → lookup_session other (delete_session peer m) ≡ lookup_session other m
  delete_other m = ground (arith, lookup_session-delete_session peer other m)

  find_or_open_other :
      (l : Listener)
      → lookup_session other (find_or_open now peer l).1.sessions ≡ lookup_session other l.sessions
  unfolding find_or_open
  find_or_open_other l = elim (Option-cases (lookup_session peer l.sessions)) [
    | inl e ↦ rw (e, find_or_open) (insert_other _ l.sessions)
    | inr (s, e) ↦ rw (e, find_or_open)
  ]

  handle_handshake_other :
      (l : Listener) (body : Bytes)
      → lookup_session other (handle_handshake mint now peer l body).0.sessions
        ≡ lookup_session other l.sessions
  unfolding handle_handshake
  handle_handshake_other l body = elim (Option-cases (parse_handshake body)) [
    | inl e ↦ rw (e, handle_handshake)
    | inr (hs, e) ↦ rw (e, handle_handshake) (insert_other _ _ ∙ find_or_open_other l)
  ]

  handle_control_other :
      (l : Listener) (hdr : Header) (body : Bytes)
      → lookup_session other (handle_control mint now peer l hdr body).0.sessions
        ≡ lookup_session other l.sessions
  unfolding handle_control
  handle_control_other l hdr body = elim (Option-cases (lookup_session peer l.sessions)) [
    | inl e ↦ rw (e, handle_control) (ground (arith, handle_handshake_other l body))
    | inr (s, e) ↦
        rw (e, handle_control)
          (ground (
            arith,
            insert_other (record s { last_seen = some now }) l.sessions,
            delete_other l.sessions,
            handle_handshake_other l body,
          ))
  ]

  handle_data_other :
      (l : Listener) (hdr : Header) (body : Bytes)
      → lookup_session other (handle_data now peer l hdr body).0.sessions
        ≡ lookup_session other l.sessions
  unfolding handle_data
  handle_data_other l hdr body = elim (Option-cases (lookup_session peer l.sessions)) [
    | inl e ↦ rw (e, handle_data)
    | inr (s, e) ↦ elim (Bool-cases s.concluded) [
      | inl c ↦ rw (e, handle_data) (rw c (insert_other _ _))
      | inr c ↦ rw (e, handle_data) (rw c)
    ]
  ]

  handle_kind_other :
      (k : PacketKind) (l : Listener) (hdr : Header) (body : Bytes)
      → lookup_session other (handle_kind k mint now peer l hdr body).0.sessions
        ≡ lookup_session other l.sessions
  unfolding handle_kind
  handle_kind_other kind_control l hdr body = handle_control_other l hdr body
  handle_kind_other kind_data l hdr body = handle_data_other l hdr body

  -- A datagram from one peer, whatever it holds, leaves the session of every other peer as it was.
  pub handle_packet_other :
      (l : Listener) (raw : Bytes)
      → lookup_session other (handle_packet mint now peer l raw).0.sessions
        ≡ lookup_session other l.sessions
  unfolding handle_packet
  handle_packet_other l raw = elim (Option-cases (parse_header raw)) [
    | inl e ↦ rw (e, handle_packet)
    | inr ((hdr, body), e) ↦ rw (e, handle_packet) (handle_kind_other hdr.kind l hdr body)
  ]
