-- ===== src/Srt/Listener/Exchange.antt =====
-- The handshake of a new peer, datagram by datagram (libsrt/listener.go, handlePacket and
-- handleHandshake).
use ggmpeg.Prelude.{
  ℕ, ◌^◌, ◌<◌, ◌≡◌, refl, ap, ◌∙◌, ◌≢◌, inl, inr, Bool, true, false, none, some, [], ◌∷◌, ◌++◌,
  arith, ◌==◌, Bool-cases, replicate, Bytes,
}
use mathlib.Core.Path.{subst}
use ggmpeg.Srt.Packet.{Header, header_size, ctrl_handshake, parse_header, marshal_control_header}
use ggmpeg.Srt.Packet.RoundTrip.{parse_header-marshal_control_header}
use ggmpeg.Srt.Handshake.{
  Handshake, FitsHandshake, hs_type_agreement, hs_type_conclusion, parse_handshake,
  marshal_handshake, parse_handshake-marshal_handshake,
}
use ggmpeg.Srt.Listener.Conclusion.{
  concluded_by, lookup_session-insert_self, handle_handshake_known, step_handshake_reply,
  step_handshake_rejects,
}
use ggmpeg.Srt.Listener.{
  Session, Listener, datagram, lookup_session, find_or_open, put_session, step_handshake,
  handle_handshake, handle_control, handle_kind, handle_packet, send_control_packet, elapsed_us,
}

-- A peer's datagram with a handshake.
abbrev pub request : ℕ → Handshake → Bytes
request ts hs =
    marshal_control_header (replicate header_size 0 ++ marshal_handshake hs) ctrl_handshake 0 0 ts 0

-- A datagram for a socket that parses as a handshake.
abbrev pub IsAnswer : Bytes → ℕ → Handshake → Type 0
IsAnswer raw dest hs =
    (hdr : Header) × (body : Bytes) × (parse_header raw ≡ some (hdr, body))
    × (hdr.control_type ≡ ctrl_handshake)
    × (hdr.dest_socket_id ≡ dest)
    × (parse_handshake body ≡ some hs)

unfoldable pub is_concluded : ℕ → Listener → Bool
is_concluded peer l = elim (lookup_session peer l.sessions) [ none ↦ false | some s ↦ s.concluded ]

answer_lem :
    (now peer : ℕ) (sess : Session) (hs : Handshake)
    → FitsHandshake hs
    → sess.peer_socket_id < 2 ^ 32
    → (raw : Bytes) × (send_control_packet now peer ctrl_handshake 0 0
          (some sess)
          (marshal_handshake hs)
        ≡ datagram peer raw)
      × IsAnswer raw sess.peer_socket_id hs
unfolding send_control_packet
answer_lem now peer sess hs f h = (
  _,
  refl,
  (
    _,
    _,
    parse_header-marshal_control_header _ ctrl_handshake 0 0 (elapsed_us now sess)
        sess.peer_socket_id (omega arith) (omega arith) (omega arith) (omega arith) (omega arith) h,
    refl,
    refl,
    parse_handshake-marshal_handshake hs f,
  ),
)

handle_packet-request :
    (mint : ℕ → ℕ → ℕ → ℕ) (now ts peer : ℕ) (l : Listener) (hs : Handshake)
    → ts < 2 ^ 32
    → handle_packet mint now peer l (request ts hs)
      ≡ handle_handshake mint now peer l (marshal_handshake hs)
unfolding handle_packet handle_kind handle_control
handle_packet-request mint now ts peer l hs h =
    let parsed =
      parse_header-marshal_control_header (replicate header_size 0 ++ marshal_handshake hs)
        ctrl_handshake 0 0 ts 0 (omega arith) (omega arith) (omega arith) (omega arith) h
        (omega arith) in
    rw (parsed, handle_packet) refl

-- The session that an induction opens.
abbrev pub induced : ℕ → ℕ → Listener → ℕ → ℕ → Session
induced now peer l socket cookie = record (find_or_open now peer l).0 {
  peer_socket_id = socket;
  cookie = cookie;
}

handle_handshake_opens :
    (mint : ℕ → ℕ → ℕ → ℕ) (now peer : ℕ) (l : Listener) (hs : Handshake)
    → FitsHandshake hs
    → hs.handshake_type ≡ hs_type_agreement
    → let cookie = mint peer hs.srt_socket_id now in
      let sess = induced now peer l hs.srt_socket_id cookie in
      handle_handshake mint now peer l (marshal_handshake hs) ≡ (
        put_session peer sess (find_or_open now peer l).1,
        send_control_packet now peer ctrl_handshake 0 0 (some sess) (
              marshal_handshake (record hs {
                handshake_type = hs_type_agreement;
                srt_socket_id = (find_or_open now peer l).0.our_socket_id;
                sync_cookie = cookie;
              }))
            ∷ [],
      )
unfolding handle_handshake step_handshake
handle_handshake_opens mint now peer l hs f h =
    let parsed = parse_handshake-marshal_handshake hs f in
    let kind : (hs.handshake_type == hs_type_agreement) ≡ true = ground arith in
    rw (parsed, handle_handshake) (rw kind refl)

opened_lem :
    (now peer : ℕ) (l : Listener)
    → lookup_session peer l.sessions ≡ none
    → ((find_or_open now peer l).0.our_socket_id ≡ l.socket_id)
      × ((find_or_open now peer l).0.concluded ≡ false)
unfolding find_or_open
opened_lem now peer l e = (rw (e, find_or_open) refl, rw (e, find_or_open) refl)

is_concluded-put :
    (peer : ℕ) (sess : Session) (l : Listener)
    → is_concluded peer (put_session peer sess l) ≡ sess.concluded
unfolding is_concluded
is_concluded-put peer sess l =
    rw (lookup_session-insert_self peer sess l.sessions, is_concluded) refl

-- A conclusion at a session that has not concluded.
module _ (mint : ℕ → ℕ → ℕ → ℕ) (now ts peer : ℕ) (l : Listener) (sess : Session) (hs : Handshake)
    (f : FitsHandshake hs) (h : ts < 2 ^ 32) (known : lookup_session peer l.sessions ≡ some sess)
    (conclusion : hs.handshake_type ≡ hs_type_conclusion) where
  stepped : handle_packet mint now peer l (request ts hs) ≡ (
    put_session peer (step_handshake mint now peer sess hs).0 l,
    (step_handshake mint now peer sess hs).1,
  )
  stepped =
      handle_packet-request mint now ts peer l hs h
      ∙ handle_handshake_known mint now peer l (marshal_handshake hs) sess hs known
          (parse_handshake-marshal_handshake hs f)

  is_concluded-stepped :
      sess.concluded ≡ false
      → is_concluded peer (handle_packet mint now peer l (request ts hs)).0
        ≡ (hs.sync_cookie == sess.cookie)
  is_concluded-stepped fresh = elim (Bool-cases (hs.sync_cookie == sess.cookie)) [
    | inl e ↦
        let same : hs.sync_cookie ≡ sess.cookie = ground arith in
        rw (stepped, step_handshake_reply mint now peer sess hs conclusion same, e)
          (is_concluded-put peer (concluded_by sess hs) l)
    | inr e ↦
        let other : hs.sync_cookie ≢ sess.cookie = ground arith in
        rw (stepped, step_handshake_rejects mint now peer sess hs conclusion other, e)
          (is_concluded-put peer sess l ∙ fresh)
  ]

  accepted :
      hs.sync_cookie ≡ sess.cookie
      → sess.our_socket_id < 2 ^ 32
      → (raw : Bytes) × ((handle_packet mint now peer l (request ts hs)).1 ≡ datagram peer raw ∷ [])
        × IsAnswer raw hs.srt_socket_id (record hs {
          handshake_type = hs_type_conclusion;
          srt_socket_id = sess.our_socket_id;
          extension_field = 0;
        })
        × (lookup_session peer (handle_packet mint now peer l (request ts hs)).0.sessions
            ≡ some (concluded_by sess hs))
  accepted same hl =
      let reply : Handshake = record hs {
        handshake_type = hs_type_conclusion;
        srt_socket_id = sess.our_socket_id;
        extension_field = 0;
      } in
      let fits : FitsHandshake reply = omega arith in
      let (raw, sent, answer) =
        answer_lem now peer (concluded_by sess hs) reply fits f.socket_fits in
      let step = step_handshake_reply mint now peer sess hs conclusion same in
      (
        raw,
        rw (stepped, step) (ap (λ o. o ∷ []) sent),
        answer,
        rw (stepped, step) (lookup_session-insert_self peer (concluded_by sess hs) l.sessions),
      )

offered :
    (mint : ℕ → ℕ → ℕ → ℕ) (now ts peer : ℕ) (l : Listener) (hs : Handshake)
    → FitsHandshake hs
    → hs.handshake_type ≡ hs_type_agreement
    → l.socket_id < 2 ^ 32
    → lookup_session peer l.sessions ≡ none
    → mint peer hs.srt_socket_id now < 2 ^ 32
    → ts < 2 ^ 32
    → let cookie = mint peer hs.srt_socket_id now in
      (raw : Bytes) × ((handle_packet mint now peer l (request ts hs)).1 ≡ datagram peer raw ∷ [])
      × IsAnswer raw hs.srt_socket_id (record hs {
        handshake_type = hs_type_agreement;
        srt_socket_id = l.socket_id;
        sync_cookie = cookie;
      })
      × (lookup_session peer (handle_packet mint now peer l (request ts hs)).0.sessions
          ≡ some (induced now peer l hs.srt_socket_id cookie))
offered mint now ts peer l hs f h hl unknown hk ht =
    let cookie = mint peer hs.srt_socket_id now in
    let reply : Handshake = record hs {
      handshake_type = hs_type_agreement;
      srt_socket_id = l.socket_id;
      sync_cookie = cookie;
    } in
    let fits : FitsHandshake reply = omega arith in
    let sess = induced now peer l hs.srt_socket_id cookie in
    let (raw, sent, answer) = answer_lem now peer sess reply fits f.socket_fits in
    let opens =
      handle_handshake_opens mint now peer l hs f h
      ∙ ap
          (λ (s : ℕ). (
            put_session peer sess (find_or_open now peer l).1,
            send_control_packet now peer ctrl_handshake 0 0 (some sess)
                  (marshal_handshake (record reply { srt_socket_id = s }))
                ∷ [],
          ))
          (opened_lem now peer l unknown).0 in
    let whole = handle_packet-request mint now ts peer l hs ht ∙ opens in
    (
      raw,
      rw whole (ap (λ o. o ∷ []) sent),
      answer,
      rw whole (lookup_session-insert_self peer sess (find_or_open now peer l).1.sessions),
    )

-- The handshake of a peer with no session, in any state of the listener. An induction is answered
-- with one datagram for the peer's socket: its own handshake with the listener's next socket id and
-- the minted cookie. A conclusion behind it concludes the session exactly when it carries that
-- cookie. With the cookie it is answered with one datagram as well, a conclusion with that socket
-- id and no extensions, and the session then knows the peer's socket, and expects the initial
-- sequence number next. The fields of the handshakes, the times, the cookie and the socket id fit
-- their widths.
pub handle_packet_exchange :
    (mint : ℕ → ℕ → ℕ → ℕ) (now now' ts ts' peer : ℕ) (l : Listener)
    (induction conclusion : Handshake)
    → FitsHandshake induction
    → FitsHandshake conclusion
    → induction.handshake_type ≡ hs_type_agreement
    → conclusion.handshake_type ≡ hs_type_conclusion
    → lookup_session peer l.sessions ≡ none
    → l.socket_id < 2 ^ 32
    → mint peer induction.srt_socket_id now < 2 ^ 32
    → ts < 2 ^ 32
    → ts' < 2 ^ 32
    → let cookie = mint peer induction.srt_socket_id now in
      let first = handle_packet mint now peer l (request ts induction) in
      let returned = record conclusion { sync_cookie = cookie } in
      let second = handle_packet mint now' peer first.0 (request ts' returned) in
      (offer : Bytes) × (answer : Bytes) × (sess : Session) × (first.1 ≡ datagram peer offer ∷ [])
      × IsAnswer offer induction.srt_socket_id (record induction {
        handshake_type = hs_type_agreement;
        srt_socket_id = l.socket_id;
        sync_cookie = cookie;
      })
      × (is_concluded peer (handle_packet mint now' peer first.0 (request ts' conclusion)).0
          ≡ (conclusion.sync_cookie == cookie))
      × (second.1 ≡ datagram peer answer ∷ [])
      × IsAnswer answer conclusion.srt_socket_id (record returned {
        handshake_type = hs_type_conclusion;
        srt_socket_id = l.socket_id;
        extension_field = 0;
      })
      × (lookup_session peer second.0.sessions ≡ some sess)
      × (sess.concluded ≡ true)
      × (sess.peer_socket_id ≡ conclusion.srt_socket_id)
      × (sess.expected_seq ≡ conclusion.initial_sequence)
handle_packet_exchange mint now now' ts ts' peer l induction conclusion fi fc hi hc unknown hl hk ht
      ht' =
    let cookie = mint peer induction.srt_socket_id now in
    let (own, fresh) = opened_lem now peer l unknown in
    let sess = induced now peer l induction.srt_socket_id cookie in
    let first = handle_packet mint now peer l (request ts induction) in
    let returned : Handshake = record conclusion { sync_cookie = cookie } in
    let fits : FitsHandshake returned = omega arith in
    let (offer, sent, offer_ok, known) =
      offered mint now ts peer l induction fi hi hl unknown hk ht in
    let (answer, sent', answer_ok, stored) =
      accepted mint now' ts' peer first.0 sess returned fits ht' known hc refl (rw own hl) in
    (
      offer,
      answer,
      concluded_by sess returned,
      sent,
      offer_ok,
      is_concluded-stepped mint now' ts' peer first.0 sess conclusion fc ht' known hc fresh,
      sent',
      subst
          (λ (id : ℕ). IsAnswer answer conclusion.srt_socket_id (record returned {
            handshake_type = hs_type_conclusion;
            srt_socket_id = id;
            extension_field = 0;
          }))
          own answer_ok,
      stored,
      refl,
      refl,
      refl,
    )
