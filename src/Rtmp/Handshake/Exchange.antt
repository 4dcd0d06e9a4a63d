-- ===== src/Rtmp/Handshake/Exchange.antt =====
-- HandshakeServer and HandshakeClient of librtmp/handshake.go, over the bytes that arrive.
use ggmpeg.Prelude.{
  ℕ, Option, none, some, [], ◌∷◌, ◌++◌, ltb, ◌==◌, if◌then◌else◌, length, take, drop, Bytes, at,
  put_be32, be32_at,
}
use ggmpeg.Rtmp.Handshake.{C2Error, Peer, new_peer, c1_len, parse_c1, make_s1, make_s2, parse_c2}

-- readerConn.ReadFull: the bytes, and those behind them.
unfoldable pub read_full : ℕ → Bytes → Option (Bytes × Bytes)
read_full n b = if ltb (length b) n then none else some (take n b, drop n b)

-- How an exchange ends. The server only logs what is wrong with the client's last packet.
pub data Ending : Type 0 where
  short_read invalid_version : Ending
  finished : Option C2Error → Ending

-- What was written until then, the peer, and the bytes that were not read.
pub record Run : Type 0 where
  pub sent : Bytes
  pub peer : Peer
  pub left : Bytes
  pub ending : Ending

-- A read, where the exchange ends if there is too little.
unfoldable pub then_read : Run → (Bytes → Bytes → Run) → Option (Bytes × Bytes) → Run
then_read short next none = short
then_read short next (some (b, left)) = next b left

-- The last step of the server: the client's last packet is read behind everything that was written.
unfoldable pub read_c2 : (Bytes → Bytes → Bytes) → Bytes → Peer → Bytes → Run
unfolding then_read read_full
read_c2 hmac sent p incoming =
    then_read (record { sent = sent; peer = p; left = incoming; ending = short_read })
      (λ c2 left. record {
        sent = sent;
        peer = p;
        left = left;
        ending = finished (parse_c2 hmac c2 p);
      })
      (read_full c1_len incoming)

-- The version byte and both packets of the server, for a first packet of the client.
unfoldable pub answer : (Bytes → Bytes → Bytes) → ℕ → Bytes → Bytes → Bytes → Peer → Bytes × Peer
answer hmac now random1 random2 c1 p =
    let p' = parse_c1 hmac c1 p in
    let (s1, p'') = make_s1 hmac now random1 p' in
    ((p.server_version ∷ []) ++ (s1 ++ make_s2 hmac random2 p''), p'')

-- `now` is the time in s1, `random1` and `random2` what rand.Read puts into S1 and S2.
unfoldable pub handshake_server : (Bytes → Bytes → Bytes) → ℕ → Bytes → Bytes → Bytes → Run
unfolding then_read read_full read_c2
handshake_server hmac now random1 random2 incoming =
    let p = record new_peer { server_version = 3 } in
    then_read (record { sent = []; peer = p; left = incoming; ending = short_read })
      (λ c0 rest.
        let p' = record p { client_version = at c0 0 } in
        let step =
          then_read (record { sent = []; peer = p'; left = rest; ending = short_read })
            (λ c1 rest'.
              read_c2 hmac (answer hmac now random1 random2 c1 p').0
                (answer hmac now random1 random2 c1 p').1 rest')
            (read_full c1_len rest) in
        if at c0 0 == 3
        then step
        else record { sent = []; peer = p'; left = rest; ending = invalid_version })
      (read_full 1 incoming)

-- The version byte and the first packet of the client.
unfoldable pub client_hello : ℕ → Bytes → Bytes
client_hello now random = 3 ∷ (put_be32 now ++ (0 ∷ 0 ∷ 0 ∷ 0 ∷ random))

-- The client behind the version byte of the server: two packets, and its last one, which echoes
-- the first of them.
unfoldable pub client_finish : Bytes → Peer → Bytes → Run
unfolding then_read read_full
client_finish sent p incoming =
    then_read (record { sent = sent; peer = p; left = incoming; ending = short_read })
      (λ s1 rest.
        let p' = record p { server_time_stamp = be32_at s1 0; server_random = drop 8 s1 } in
        then_read (record { sent = sent; peer = p'; left = rest; ending = short_read })
          (λ s2 rest'. record {
            sent = sent ++ (put_be32 (be32_at s1 0) ++ (0 ∷ 0 ∷ 0 ∷ 0 ∷ drop 8 s1));
            peer = p';
            left = rest';
            ending = finished none;
          })
          (read_full c1_len rest))
      (read_full c1_len incoming)

unfoldable pub handshake_client : ℕ → Bytes → Bytes → Run
unfolding then_read read_full client_finish
handshake_client now random incoming =
    let hello = client_hello now random in
    let p = record new_peer {
      client_version = 3;
      client_time_stamp = now;
      client_random = random;
    } in
    then_read (record { sent = hello; peer = p; left = incoming; ending = short_read })
      (λ s0 rest.
        let p' = record p { server_version = at s0 0 } in
        if at s0 0 == 3
        then client_finish hello p' rest
        else record { sent = hello; peer = p'; left = rest; ending = invalid_version })
      (read_full 1 incoming)
