-- ===== src/Rtmp/Handshake/Dialog.antt =====
-- The client and the server of librtmp/handshake.go with one another.
use ggmpeg.Prelude.{
  ℕ, suc, ◌+◌, ◌*◌, ◌/◌, ◌%◌, ◌^◌, ◌<◌, ◌≡◌, refl, ap, ◌∙◌, true, false, none, some, [], ◌∷◌, ◌++◌,
  append-nil, arith, ltb, leb, ◌==◌, length, length-append, take-append_left, drop-append_left,
  take_whole, Bytes, put_be32,
}
use ggmpeg.Prelude.Equal.{same_bytes_refl}
use ggmpeg.Rtmp.Handshake.{
  Peer, new_peer, simple, complex1, complex2, c1_len, handshake_block_size, is_signed, try_block,
  parse_simple, parse_c1, make_s1, make_s2, check_simple, parse_c2,
}
use ggmpeg.Rtmp.Handshake.Exchange.{
  Run, finished, then_read, read_full, read_c2, answer, handshake_server, client_hello,
  client_finish, handshake_client,
}

-- The first packet of either side in the simple form.
abbrev pub first_packet : ℕ → Bytes → Bytes
first_packet now random = put_be32 now ++ (0 ∷ 0 ∷ 0 ∷ 0 ∷ random)

read_full_lem : (b rest : Bytes) (n : ℕ) → n ≡ length b → read_full n (b ++ rest) ≡ some (b, rest)
unfolding read_full
read_full_lem b rest n h =
    let whole = length-append b rest in
    let room : ltb (length (b ++ rest)) n ≡ false = ground (arith, whole) in
    rw (room, take-append_left b rest n h, drop-append_left b rest n h) refl

module _ (hmac : Bytes → Bytes → Bytes) (tc ts : ℕ) (rc r1 r2 : Bytes) (hc : length rc ≡ 1528)
    (hs : length r1 ≡ 1528) (hct : tc < 2 ^ 32) (hst : ts < 2 ^ 32)
    (far : is_signed hmac (first_packet tc rc) (8 + handshake_block_size) ≡ false)
    (near : is_signed hmac (first_packet tc rc) 8 ≡ false) where
  abbrev reply : Bytes
  reply = 3 ∷ (first_packet ts r1 ++ first_packet tc rc)

  parse_c1_lem :
      (p : Peer)
      → parse_c1 hmac (first_packet tc rc) p
        ≡ parse_simple hmac (first_packet tc rc) (
            try_block hmac complex2
              (first_packet tc rc)
              8
              (try_block hmac complex1 (first_packet tc rc) (8 + handshake_block_size) p))
  unfolding parse_c1
  parse_c1_lem p = rw (far, near) refl

  parse_c2_lem :
      (p : Peer)
      → p.mode ≡ simple
      → p.server_random ≡ r1
      → parse_c2 hmac (first_packet ts r1) p ≡ none
  unfolding parse_c2 check_simple
  parse_c2_lem p hm hr =
      let full : leb (length r1) (length r1) ≡ true = ground arith in
      let size : (suc (suc (suc (suc (suc (suc (suc (suc (length r1)))))))) == c1_len) ≡ true =
        ground arith in
      let whole = take_whole r1 (length r1) (omega arith) in
      rw (size, hm, hr, full, whole, same_bytes_refl r1) refl

  answer_lem :
      (p : Peer)
      → ((answer hmac ts r1 r2 (first_packet tc rc) p).0
          ≡ p.server_version ∷ (first_packet ts r1 ++ first_packet tc rc))
        × ((answer hmac ts r1 r2 (first_packet tc rc) p).1.mode ≡ simple)
        × ((answer hmac ts r1 r2 (first_packet tc rc) p).1.server_random ≡ r1)
  unfolding answer parse_simple make_s1 make_s2 try_block
  answer_lem p =
      let stamp : tc / 2 ^ 24 % 256 * 2 ^ 24
            + tc / 2 ^ 16 % 256 * 2 ^ 16
            + tc / 2 ^ 8 % 256 * 2 ^ 8
            + tc % 256
          ≡ tc =
        omega arith in
      rw (parse_c1_lem p) (rw stamp refl, refl, refl)

  -- The server, for the client's version and first packet and whatever comes behind them.
  server_lem :
      (more : Bytes)
      → handshake_server hmac ts r1 r2 (client_hello tc rc ++ more)
        ≡ read_c2 hmac reply
            (answer hmac ts r1 r2
              (first_packet tc rc)
              (record new_peer { server_version = 3; client_version = 3 })).1
            more
  unfolding handshake_server client_hello then_read
  server_lem more =
      let first = read_full_lem (3 ∷ []) (first_packet tc rc ++ more) 1 refl in
      let second = read_full_lem (first_packet tc rc) more c1_len (omega arith) in
      let sent = (answer_lem (record new_peer { server_version = 3; client_version = 3 })).0 in
      rw (first, second, sent) refl

  client_lem : handshake_client tc rc reply ≡ record {
    sent = client_hello tc rc ++ first_packet ts r1;
    peer = record new_peer {
      client_version = 3;
      server_version = 3;
      client_time_stamp = tc;
      client_random = rc;
      server_time_stamp = ts;
      server_random = r1;
    };
    left = [];
    ending = finished none;
  }
  unfolding handshake_client client_finish then_read
  client_lem =
      let first = read_full_lem (3 ∷ []) (first_packet ts r1 ++ first_packet tc rc) 1 refl in
      let second = read_full_lem (first_packet ts r1) (first_packet tc rc) c1_len (omega arith) in
      let third = read_full_lem (first_packet tc rc) [] c1_len (omega arith) in
      let third' = rw append-nil at third in
      let stamp : ts / 2 ^ 24 % 256 * 2 ^ 24
            + ts / 2 ^ 16 % 256 * 2 ^ 16
            + ts / 2 ^ 8 % 256 * 2 ^ 8
            + ts % 256
          ≡ ts =
        omega arith in
      rw (first, second, third', stamp) refl

  -- The exchange goes through, step by step. Before it reads anything the client has sent its
  -- version and first packet; on these alone the server sends its version and both packets, the
  -- second an echo of the client's; on these the client is finished, and has sent its last packet,
  -- an echo of the server's first; on this the server is finished with no complaint; and neither
  -- leaves a byte unread. The random parts have 1528 bytes, the times fit 32 bits, and no digest
  -- happens to stand in the client's first packet.
  pub handshake_server-handshake_client :
      ((handshake_client tc rc []).sent ≡ client_hello tc rc)
      × ((handshake_server hmac ts r1 r2 (client_hello tc rc)).sent ≡ reply)
      × ((handshake_client tc rc reply).sent ≡ client_hello tc rc ++ first_packet ts r1)
      × ((handshake_client tc rc reply).ending ≡ finished none)
      × ((handshake_client tc rc reply).left ≡ [])
      × ((handshake_server hmac ts r1 r2 (client_hello tc rc ++ first_packet ts r1)).ending
          ≡ finished none)
      × ((handshake_server hmac ts r1 r2 (client_hello tc rc ++ first_packet ts r1)).left ≡ [])
  unfolding handshake_client then_read read_full read_c2
  handshake_server-handshake_client =
      let p =
        (answer hmac ts r1 r2 (first_packet tc rc)
          (record new_peer { server_version = 3; client_version = 3 })).1 in
      let peer = answer_lem (record new_peer { server_version = 3; client_version = 3 }) in
      let third = rw append-nil at (read_full_lem (first_packet ts r1) [] c1_len (omega arith)) in
      let alone = rw append-nil at (server_lem []) in
      let last : handshake_server hmac ts r1 r2 (client_hello tc rc ++ first_packet ts r1)
          ≡ record { sent = reply; peer = p; left = []; ending = finished none } =
        server_lem (first_packet ts r1) ∙ rw (third, parse_c2_lem p (peer.1) (peer.2)) refl in
      (
        refl,
        ap (λ (r : Run). r.sent) alone,
        ap (λ (r : Run). r.sent) client_lem,
        ap (λ (r : Run). r.ending) client_lem,
        ap (λ (r : Run). r.left) client_lem,
        ap (λ (r : Run). r.ending) last,
        ap (λ (r : Run). r.left) last,
      )
