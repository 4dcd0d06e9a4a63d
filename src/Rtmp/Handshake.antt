-- ===== src/Rtmp/Handshake.antt =====
-- librtmp/handshake.go: the opening exchange of a connection, for the server and for the client, in
-- the simple form and in the two forms with a digest. HMAC-SHA256 (crypto/hmac), the clock and the
-- random bytes are given. What is read is a byte string that may be too short; every write succeeds.
use ggmpeg.Prelude.{
  ℕ, zero, suc, ◌+◌, ◌-◌, ◌*◌, ◌/◌, ◌%◌, ◌^◌, ◌≤◌, ◌<◌, ◌≡◌, refl, sym, ap, ◌∙◌, ◌≢◌, ◌↔◌, ◌⊎◌, inl,
  inr, Bool, true, false, not, ◌&&◌, ◌||◌, Option, none, some, List, [], ◌∷◌, ◌++◌, append-nil,
  append_assoc, arith, ltb, leb, ◌==◌, if◌then◌else◌, ltb→lt, lt→ltb, leb→le, le→leb, leb-false→lt,
  ltb-false→le, ==_iff, tests, Bool-cases, Option-cases, length, get_elem?, set, length-append,
  get_or, take, drop, replicate, take-append-drop, length-take, length-drop, length-replicate,
  take-append_left, drop-append_left, take_whole, drop_whole, drop-append_past, take-append_past,
  Bytes, IsByte, All, All-append, at, has_bit, put_be16, put_be24, put_be32, be16_at, be24_at,
  be32_at,
}
use ggmpeg.Prelude.Equal.{same_bytes}
pub mod Exchange
pub mod Digest
pub mod Dialog
mod Tests

abbrev pub c1_len : ℕ
c1_len = 1536

abbrev pub handshake_block_size : ℕ
handshake_block_size = 764

abbrev pub handshake_digest_spread : ℕ
handshake_digest_spread = 728

abbrev pub handshake_digest_size : ℕ
handshake_digest_size = 32

pub data HandshakeMode : Type 0 where
  simple complex1 complex2 : HandshakeMode

abbrev pub fms_key : Bytes
fms_key =
    0x47 ∷ 0x65 ∷ 0x6e ∷ 0x75 ∷ 0x69 ∷ 0x6e ∷ 0x65 ∷ 0x20 ∷ 0x41 ∷ 0x64 ∷ 0x6f ∷ 0x62 ∷ 0x65 ∷ 0x20
    ∷ 0x46 ∷ 0x6c ∷ 0x61 ∷ 0x73 ∷ 0x68 ∷ 0x20 ∷ 0x4d ∷ 0x65 ∷ 0x64 ∷ 0x69 ∷ 0x61 ∷ 0x20 ∷ 0x53
    ∷ 0x65 ∷ 0x72 ∷ 0x76 ∷ 0x65 ∷ 0x72 ∷ 0x20 ∷ 0x30 ∷ 0x30 ∷ 0x31 ∷ 0xf0 ∷ 0xee ∷ 0xc2 ∷ 0x4a
    ∷ 0x80 ∷ 0x68 ∷ 0xbe ∷ 0xe8 ∷ 0x2e ∷ 0x00 ∷ 0xd0 ∷ 0xd1 ∷ 0x02 ∷ 0x9e ∷ 0x7e ∷ 0x57 ∷ 0x6e
    ∷ 0xec ∷ 0x5d ∷ 0x2d ∷ 0x29 ∷ 0x80 ∷ 0x6f ∷ 0xab ∷ 0x93 ∷ 0xb8 ∷ 0xe6 ∷ 0x36 ∷ 0xcf ∷ 0xeb
    ∷ 0x31 ∷ 0xae ∷ []

abbrev pub fp_key : Bytes
fp_key =
    0x47 ∷ 0x65 ∷ 0x6e ∷ 0x75 ∷ 0x69 ∷ 0x6e ∷ 0x65 ∷ 0x20 ∷ 0x41 ∷ 0x64 ∷ 0x6f ∷ 0x62 ∷ 0x65 ∷ 0x20
    ∷ 0x46 ∷ 0x6c ∷ 0x61 ∷ 0x73 ∷ 0x68 ∷ 0x20 ∷ 0x50 ∷ 0x6c ∷ 0x61 ∷ 0x79 ∷ 0x65 ∷ 0x72 ∷ 0x20
    ∷ 0x30 ∷ 0x30 ∷ 0x31 ∷ 0xf0 ∷ 0xee ∷ 0xc2 ∷ 0x4a ∷ 0x80 ∷ 0x68 ∷ 0xbe ∷ 0xe8 ∷ 0x2e ∷ 0x00
    ∷ 0xd0 ∷ 0xd1 ∷ 0x02 ∷ 0x9e ∷ 0x7e ∷ 0x57 ∷ 0x6e ∷ 0xec ∷ 0x5d ∷ 0x2d ∷ 0x29 ∷ 0x80 ∷ 0x6f
    ∷ 0xab ∷ 0x93 ∷ 0xb8 ∷ 0xe6 ∷ 0x36 ∷ 0xcf ∷ 0xeb ∷ 0x31 ∷ 0xae ∷ []

-- The fields that no code reads are left out: serverZero, clientKey and serverKey.
pub record Peer : Type 0 where
  pub mode : HandshakeMode
  pub client_version : ℕ
  pub server_version : ℕ
  pub client_time_stamp : ℕ
  pub server_time_stamp : ℕ
  pub client_zero : ℕ
  pub client_random : Bytes
  pub server_random : Bytes
  pub client_digest : Bytes
  pub server_digest : Bytes

abbrev pub new_peer : Peer
new_peer = record {
  mode = simple;
  client_version = 0;
  server_version = 0;
  client_time_stamp = 0;
  server_time_stamp = 0;
  client_zero = 0;
  client_random = [];
  server_random = [];
  client_digest = [];
  server_digest = [];
}

-- Where the digest stands in the block at `base`, by the four bytes there.
unfoldable pub digest_start : Bytes → ℕ → ℕ
digest_start c1 base =
    base
    + 4
    + (at c1 base + at c1 (base + 1) + at c1 (base + 2) + at c1 (base + 3))
      % handshake_digest_spread

unfoldable pub digest_of : Bytes → ℕ → Bytes
digest_of c1 start = take handshake_digest_size (drop start c1)

-- All but the digest.
unfoldable pub joined_of : Bytes → ℕ → Bytes
joined_of c1 start = take start c1 ++ drop (start + handshake_digest_size) c1

unfoldable pub put_digest : Bytes → ℕ → Bytes → Bytes
put_digest s1 start digest = take start s1 ++ (digest ++ drop (start + handshake_digest_size) s1)

-- Bytes 4 to 8 of a first packet.
unfoldable pub put_version : Bytes → Bytes → Bytes
put_version version s1 = take 4 s1 ++ (version ++ drop 8 s1)

pub data C2Error : Type 0 where
  wrong_length simple_mismatch complex_mismatch : C2Error

module _ (hmac : Bytes → Bytes → Bytes) where
  -- One round of the search: is there the right digest in the block?
  unfoldable pub is_signed : Bytes → ℕ → Bool
  is_signed c1 base =
      let start = digest_start c1 base in
      same_bytes (hmac (take 30 fp_key) (joined_of c1 start)) (digest_of c1 start)

  unfoldable pub parse_simple : Bytes → Peer → Peer
  parse_simple c1 p = record p {
    mode = simple;
    client_time_stamp = be32_at c1 0;
    client_zero = be32_at c1 4;
    client_random = drop 8 c1;
  }

  -- The digest of the last round stays in the peer.
  unfoldable pub try_block : HandshakeMode → Bytes → ℕ → Peer → Peer
  try_block m c1 base p = record p { mode = m; client_digest = digest_of c1 (digest_start c1 base) }

  unfoldable pub parse_c1 : Bytes → Peer → Peer
  parse_c1 c1 p =
      let p1 = try_block complex1 c1 (8 + handshake_block_size) p in
      let p2 = try_block complex2 c1 8 p1 in
      if is_signed c1 (8 + handshake_block_size)
      then p1
      else if is_signed c1 8
      then p2
      else parse_simple c1 p2

  -- The first packet of the server with a digest in the block at `base`.
  unfoldable pub sign_s1 : Bytes → ℕ → Peer → Bytes × Peer
  sign_s1 s1 base p =
      let s1' = put_version (0x04 ∷ 0x05 ∷ 0x00 ∷ 0x01 ∷ []) s1 in
      let start = digest_start s1' base in
      let digest = hmac (take 36 fms_key) (joined_of s1' start) in
      (put_digest s1' start digest, record p { server_digest = digest })

  unfoldable pub make_s1 : ℕ → Bytes → Peer → Bytes × Peer
  make_s1 now random p =
      let s1 = put_be32 now ++ (0 ∷ 0 ∷ 0 ∷ 0 ∷ random) in
      let p' = record p { server_time_stamp = now } in
      elim p.mode [
        | simple ↦ (s1, record p' { server_random = drop 8 s1 })
        | complex1 ↦ sign_s1 s1 (8 + handshake_block_size) p'
        | complex2 ↦ sign_s1 s1 8 p'
      ]

  unfoldable pub sign_s2 : Bytes → Bytes → Bytes
  sign_s2 random digest =
      let body = take (c1_len - handshake_digest_size) random in
      body ++ hmac (hmac fms_key digest) body

  unfoldable pub make_s2 : Bytes → Peer → Bytes
  make_s2 random p = elim p.mode [
    | simple ↦ put_be32 p.client_time_stamp ++ (put_be32 p.client_zero ++ p.client_random)
    | complex1 ↦ sign_s2 random p.client_digest
    | complex2 ↦ sign_s2 random p.client_digest
  ]

  unfoldable pub check_simple : Bytes → Peer → Option C2Error
  check_simple c2 p =
      let echo = drop 8 c2 in
      if leb (length echo) (length p.server_random)
      then (if same_bytes echo (take (length echo) p.server_random)
          then none
          else some simple_mismatch)
      else none

  unfoldable pub check_complex : Bytes → Peer → Option C2Error
  check_complex c2 p =
      let body = c1_len - handshake_digest_size in
      let expected = hmac (hmac fp_key p.server_digest) (take body c2) in
      if length p.server_digest == 0
      then none
      else if same_bytes expected (drop body c2)
      then none
      else some complex_mismatch

  unfoldable pub parse_c2 : Bytes → Peer → Option C2Error
  parse_c2 c2 p =
      let by_mode = elim p.mode as (λ _. Option C2Error) [
        | simple ↦ check_simple c2 p
        | complex1 ↦ check_complex c2 p
        | complex2 ↦ check_complex c2 p
      ] in
      if length c2 == c1_len then by_mode else some wrong_length
