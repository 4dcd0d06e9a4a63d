-- ===== src/Rtmp/Handshake/Digest.antt =====
-- The digests of librtmp/handshake.go: where they are put, and that they are found there.
use ggmpeg.Prelude.{
  ℕ, zero, suc, ◌+◌, ◌≤◌, ◌<◌, ◌≡◌, refl, sym, ◌∙◌, ◌⊎◌, inl, inr, true, false, [], ◌∷◌, ◌++◌,
  arith, ◌==◌, if◌then◌else◌, length, length-append, take, drop, length-take, length-drop,
  take-append_left, drop-append_left, drop-append_past, Bytes, at,
}
use ggmpeg.Prelude.Equal.{same_bytes_refl}
use ggmpeg.Rtmp.Handshake.{
  Peer, HandshakeMode, complex1, complex2, c1_len, handshake_digest_size, fms_key, fp_key,
  digest_start, digest_of, joined_of, put_digest, put_version, is_signed, try_block, parse_c1,
  sign_s1, make_s1,
}

at-append : (xs ys : Bytes) (i : ℕ) → i < length xs → at (xs ++ ys) i ≡ at xs i
at-append [] ys i h = absurd (omega arith)
at-append (x ∷ xs) ys zero h = refl
at-append (x ∷ xs) ys (suc i) h = at-append xs ys i (omega arith)

at-take : (n : ℕ) (xs : Bytes) (i : ℕ) → i < n → at (take n xs) i ≡ at xs i
at-take zero xs i h = absurd (omega arith)
at-take (suc n) [] i h = refl
at-take (suc n) (x ∷ xs) zero h = refl
at-take (suc n) (x ∷ xs) (suc i) h = at-take n xs i (omega arith)

-- A packet with a digest between two parts, where the first covers the offset bytes of the block.
module _ (front digest behind : Bytes) (base : ℕ) (size : length digest ≡ handshake_digest_size)
    (covers : base + 4 ≤ length front) (place : digest_start front base ≡ length front) where
  packet : Bytes
  packet = front ++ (digest ++ behind)

  start_lem : digest_start packet base ≡ length front
  unfolding digest_start packet
  start_lem =
      rw
        (
          at-append front (digest ++ behind) base (omega arith),
          at-append front (digest ++ behind) (base + 1) (omega arith),
          at-append front (digest ++ behind) (base + 2) (omega arith),
          at-append front (digest ++ behind) (base + 3) (omega arith),
        )
        place

  digest_of_lem : digest_of packet (length front) ≡ digest
  unfolding digest_of packet
  digest_of_lem =
      rw (drop-append_left front (digest ++ behind) (length front) refl)
        (take-append_left digest behind handshake_digest_size (sym size))

  joined_of_lem : joined_of packet (length front) ≡ front ++ behind
  unfolding joined_of packet
  joined_of_lem =
      rw
        (
          take-append_left front (digest ++ behind) (length front) refl,
          drop-append_past front (digest ++ behind) (length front + handshake_digest_size)
              handshake_digest_size refl,
          drop-append_left digest behind handshake_digest_size (sym size),
        )
        refl

  is_signed_lem :
      (hmac : Bytes → Bytes → Bytes)
      → digest ≡ hmac (take 30 fp_key) (front ++ behind)
      → is_signed hmac packet base ≡ true
  unfolding is_signed
  is_signed_lem hmac signed =
      rw (start_lem, joined_of_lem, digest_of_lem, sym signed) (same_bytes_refl digest)

-- The two places of the block with the digest, and the forms that they stand for.
abbrev pub mode_of : ℕ → HandshakeMode
mode_of base = if base == 8 then complex2 else complex1

-- A first packet that a client has signed puts the server into the form that goes with the place of
-- the digest, and the server keeps this digest. It is that of the rest of the packet, it stands
-- where the four bytes of its block say, and behind them; and for the block of the second form, the
-- other block has no valid digest.
pub parse_c1-signed :
    (hmac : Bytes → Bytes → Bytes) (front digest behind : Bytes) (base : ℕ) (p : Peer)
    → length digest ≡ handshake_digest_size
    → digest ≡ hmac (take 30 fp_key) (front ++ behind)
    → base + 4 ≤ length front
    → digest_start front base ≡ length front
    → (base ≡ 772) ⊎ ((base ≡ 8) × (is_signed hmac (front ++ (digest ++ behind)) 772 ≡ false))
    → ((parse_c1 hmac (front ++ (digest ++ behind)) p).mode ≡ mode_of base)
      × ((parse_c1 hmac (front ++ (digest ++ behind)) p).client_digest ≡ digest)
unfolding parse_c1 try_block packet
parse_c1-signed hmac front digest behind base p size signed covers place (inl far) =
    let e = start_lem front digest behind base size covers place in
    let found = is_signed_lem front digest behind base size covers place hmac signed in
    let at_block = digest_of_lem front digest behind base size covers place in
    let e' = rw far at e in let found' = rw far at found in rw (far, found') (refl, rw e' at_block)
parse_c1-signed hmac front digest behind base p size signed covers place (inr (near, other)) =
    let e = start_lem front digest behind base size covers place in
    let found = is_signed_lem front digest behind base size covers place hmac signed in
    let at_block = digest_of_lem front digest behind base size covers place in
    let e' = rw near at e in
    let found' = rw near at found in rw (near, other, found') (refl, rw e' at_block)

digest_start-take :
    (s : Bytes) (base : ℕ)
    → base + 4 ≤ length s
    → digest_start (take (digest_start s base) s) base ≡ digest_start s base
unfolding digest_start
digest_start-take s base h =
    let n = digest_start s base in
    rw
      (
        at-take n s base (omega arith),
        at-take n s (base + 1) (omega arith),
        at-take n s (base + 2) (omega arith),
        at-take n s (base + 3) (omega arith),
      )
      refl

digest_start_bound : (s : Bytes) (base : ℕ) → digest_start s base ≤ base + 731
unfolding digest_start
digest_start_bound s base = omega arith

digest_start_low : (s : Bytes) (base : ℕ) → base + 4 ≤ digest_start s base
unfolding digest_start
digest_start_low s base = omega arith

-- The packet that `sign_s1` makes of `s` by a digest at `n`.
put_digest_lem :
    (s digest : Bytes) (base : ℕ)
    → length s ≡ c1_len
    → base + 764 ≤ c1_len
    → length digest ≡ handshake_digest_size
    → (length (put_digest s (digest_start s base) digest) ≡ c1_len)
      × (digest_start (put_digest s (digest_start s base) digest) base ≡ digest_start s base)
      × (digest_of (put_digest s (digest_start s base) digest) (digest_start s base) ≡ digest)
      × (joined_of (put_digest s (digest_start s base) digest) (digest_start s base)
          ≡ joined_of s (digest_start s base))
unfolding put_digest packet joined_of
put_digest_lem s digest base hs hb hd =
    let n = digest_start s base in
    let front = take n s in
    let behind = drop (n + handshake_digest_size) s in
    let room = digest_start_bound s base in
    let low : base + 4 ≤ n = digest_start_low s base in
    let len : length front ≡ n = omega (arith, length-take n s) in
    let place : digest_start front base ≡ length front =
      digest_start-take s base (omega arith) ∙ sym len in
    let whole = length-append front (digest ++ behind) in
    let parts = length-append digest behind in
    let tail = length-drop (n + handshake_digest_size) s in
    (
      omega (arith, whole, parts, tail),
      start_lem front digest behind base hd (omega arith) place ∙ len,
      rw len at (digest_of_lem front digest behind base hd (omega arith) place),
      rw len at (joined_of_lem front digest behind base hd (omega arith) place),
    )

-- The packet has its size, the digest of `out.1` stands where the packet's own bytes say, and is that
-- of the rest under the key of the server.
abbrev pub IsSigned : (Bytes → Bytes → Bytes) → ℕ → Bytes × Peer → Type 0
IsSigned hmac base out =
    (length out.0 ≡ c1_len)
    × (out.1.server_digest ≡ digest_of out.0 (digest_start out.0 base))
    × (out.1.server_digest ≡ hmac (take 36 fms_key) (joined_of out.0 (digest_start out.0 base)))

sign_s1-IsSigned :
    (hmac : Bytes → Bytes → Bytes) (s1 : Bytes) (base : ℕ) (p : Peer)
    → ((k m : Bytes) → length (hmac k m) ≡ handshake_digest_size)
    → base + 764 ≤ c1_len
    → length (put_version (0x04 ∷ 0x05 ∷ 0x00 ∷ 0x01 ∷ []) s1) ≡ c1_len
    → IsSigned hmac base (sign_s1 hmac s1 base p)
unfolding sign_s1
sign_s1-IsSigned hmac s1 base p hd hb hs =
    let s = put_version (0x04 ∷ 0x05 ∷ 0x00 ∷ 0x01 ∷ []) s1 in
    let digest = hmac (take 36 fms_key) (joined_of s (digest_start s base)) in
    let laws =
      put_digest_lem s digest base hs hb
        (hd (take 36 fms_key) (joined_of s (digest_start s base))) in
    (laws.0, rw (laws.1) (sym laws.2), rw (laws.1, laws.3) refl)

-- The first packet of the server in a form with a digest: it has 1536 bytes, and whoever takes the
-- digest from where the packet's own four bytes say finds the digest of the rest under the key of
-- the server, which the server keeps to check the answer. The random part has 1528 bytes, and a
-- digest has 32.
pub make_s1-IsSigned :
    (hmac : Bytes → Bytes → Bytes) (now : ℕ) (random : Bytes) (base : ℕ) (p : Peer)
    → length random ≡ 1528
    → ((k m : Bytes) → length (hmac k m) ≡ handshake_digest_size)
    → (base ≡ 772) ⊎ (base ≡ 8)
    → p.mode ≡ mode_of base
    → IsSigned hmac base (make_s1 hmac now random p)
unfolding make_s1 put_version
make_s1-IsSigned hmac now random base p hr hd (inl far) hm =
    let mode : p.mode ≡ complex1 = rw far at hm in
    rw (far, mode) (sign_s1-IsSigned hmac _ 772 _ hd (omega arith) (omega arith))
make_s1-IsSigned hmac now random base p hr hd (inr near) hm =
    let mode : p.mode ≡ complex2 = rw near at hm in
    rw (near, mode) (sign_s1-IsSigned hmac _ 8 _ hd (omega arith) (omega arith))
