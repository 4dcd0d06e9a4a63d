-- ===== src/Srt/Handshake.antt =====
-- libsrt/handshake.go: the 48-byte handshake body.
use ggmpeg.Prelude.{
  ℕ, zero, suc, ◌-◌, ◌^◌, ◌<◌, ◌≡◌, refl, ap, List, [], ◌∷◌, Bool, ◌||◌, Option, none, some, ◌++◌,
  Bytes, ltb, ◌==◌, length, take, drop, put_be16, put_be32, be16_at, be32_at, if◌then◌else◌, arith,
}

abbrev pub handshake_body_size : ℕ
handshake_body_size = 48

-- An int32 is held as its 32-bit pattern, so -1 is 2 ^ 32 - 1.
abbrev pub hs_type_agreement : ℕ
hs_type_agreement = 1

abbrev pub hs_type_conclusion : ℕ
hs_type_conclusion = 2 ^ 32 - 1

abbrev srt_version4 : ℕ
srt_version4 = 4

pub record Handshake : Type 0 where
  pub version : ℕ
  pub encryption_field : ℕ
  pub extension_field : ℕ
  pub initial_sequence : ℕ
  pub max_packet_size : ℕ
  pub max_flow_window : ℕ
  pub handshake_type : ℕ
  pub srt_socket_id : ℕ
  pub sync_cookie : ℕ
  pub peer_ip : Bytes

-- `none` is the error for a short body.
unfoldable pub parse_handshake : Bytes → Option Handshake
parse_handshake b =
    if ltb (length b) handshake_body_size
    then none
    else some (record {
      version = be32_at b 0;
      encryption_field = be16_at b 4;
      extension_field = be16_at b 6;
      initial_sequence = be32_at b 8;
      max_packet_size = be32_at b 12;
      max_flow_window = be32_at b 16;
      handshake_type = be32_at b 20;
      srt_socket_id = be32_at b 24;
      sync_cookie = be32_at b 28;
      peer_ip = take 16 (drop 32 b);
    })

unfoldable pub marshal_handshake : Handshake → Bytes
marshal_handshake h =
    put_be32 h.version
    ++ (put_be16 h.encryption_field
        ++ (put_be16 h.extension_field
            ++ (put_be32 h.initial_sequence
                ++ (put_be32 h.max_packet_size
                    ++ (put_be32 h.max_flow_window
                        ++ (put_be32 h.handshake_type
                            ++ (put_be32 h.srt_socket_id
                                ++ (put_be32 h.sync_cookie ++ h.peer_ip))))))))

unfoldable pub is_induction : Handshake → Bool
is_induction h = h.handshake_type == hs_type_agreement || h.version == srt_version4

-- The widths that the Go types guarantee.
pub record FitsHandshake (h : Handshake) : Type 0 where
  pub version_fits : h.version < 2 ^ 32
  pub encryption_fits : h.encryption_field < 2 ^ 16
  pub extension_fits : h.extension_field < 2 ^ 16
  pub sequence_fits : h.initial_sequence < 2 ^ 32
  pub packet_fits : h.max_packet_size < 2 ^ 32
  pub window_fits : h.max_flow_window < 2 ^ 32
  pub type_fits : h.handshake_type < 2 ^ 32
  pub socket_fits : h.srt_socket_id < 2 ^ 32
  pub cookie_fits : h.sync_cookie < 2 ^ 32
  pub ip_fits : length h.peer_ip ≡ 16

take-length {ℓ} : {A : Type ℓ} (n : ℕ) (xs : List A) → length xs ≡ n → take n xs ≡ xs
take-length zero [] h = refl
take-length zero (x ∷ xs) h = absurd (omega arith)
take-length (suc n) [] h = absurd (omega arith)
take-length (suc n) (x ∷ xs) h = ap (λ t. x ∷ t) (take-length n xs (omega arith))

-- `Marshal` followed by `ParseHandshake` gives every field of the handshake back, whenever the
-- fields have the widths of their Go types.
pub parse_handshake-marshal_handshake :
    (h : Handshake) → FitsHandshake h → parse_handshake (marshal_handshake h) ≡ some h
unfolding parse_handshake marshal_handshake
parse_handshake-marshal_handshake h f = ground (arith, take-length 16 h.peer_ip f.ip_fits)
