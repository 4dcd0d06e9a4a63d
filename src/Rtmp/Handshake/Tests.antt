-- ===== src/Rtmp/Handshake/Tests.antt =====
-- The handshake at concrete inputs, with a stand-in for HMAC that gives 32 zeros.
use ggmpeg.Prelude.{
  ◌+◌, ◌≡◌, refl, inl, false, none, [], ◌∷◌, ◌++◌, arith, length, replicate, Bytes,
}
use ggmpeg.Prelude.Equal.{same_bytes}
use ggmpeg.Rtmp.Handshake.{
  new_peer, complex1, handshake_block_size, digest_start, digest_of, is_signed, parse_c1, make_s1,
}
use ggmpeg.Rtmp.Handshake.Exchange.{finished, handshake_server, handshake_client, client_hello}
use ggmpeg.Rtmp.Handshake.Dialog.{first_packet, handshake_server-handshake_client}
use ggmpeg.Rtmp.Handshake.Digest.{mode_of, parse_c1-signed, IsSigned, make_s1-IsSigned}

abbrev zeros_mac : Bytes → Bytes → Bytes
zeros_mac k m = replicate 32 0

abbrev ones : Bytes
ones = replicate 1528 1

length-ones : length ones ≡ 1528
length-ones = refl

far_unsigned : is_signed zeros_mac (first_packet 5 ones) (8 + handshake_block_size) ≡ false
unfolding is_signed digest_of digest_start same_bytes
far_unsigned = refl

near_unsigned : is_signed zeros_mac (first_packet 5 ones) 8 ≡ false
unfolding is_signed digest_of digest_start same_bytes
near_unsigned = refl

handshake_server-handshake_client_example :
    ((handshake_client 5 ones []).sent ≡ client_hello 5 ones)
    × ((handshake_server zeros_mac 9 ones [] (client_hello 5 ones)).sent
        ≡ 3 ∷ (first_packet 9 ones ++ first_packet 5 ones))
    × ((handshake_client 5 ones (3 ∷ (first_packet 9 ones ++ first_packet 5 ones))).sent
        ≡ client_hello 5 ones ++ first_packet 9 ones)
    × ((handshake_client 5 ones (3 ∷ (first_packet 9 ones ++ first_packet 5 ones))).ending
        ≡ finished none)
    × ((handshake_client 5 ones (3 ∷ (first_packet 9 ones ++ first_packet 5 ones))).left ≡ [])
    × ((handshake_server zeros_mac 9 ones [] (client_hello 5 ones ++ first_packet 9 ones)).ending
        ≡ finished none)
    × ((handshake_server zeros_mac 9 ones [] (client_hello 5 ones ++ first_packet 9 ones)).left
        ≡ [])
handshake_server-handshake_client_example =
    handshake_server-handshake_client zeros_mac 5 9 ones ones [] length-ones length-ones
      (omega arith) (omega arith) far_unsigned near_unsigned

abbrev front : Bytes
front = replicate 776 0

abbrev digest : Bytes
digest = replicate 32 0

abbrev behind : Bytes
behind = replicate 728 0

front_place : digest_start front 772 ≡ length front
unfolding digest_start
front_place = refl

parse_c1-signed_example :
    ((parse_c1 zeros_mac (front ++ (digest ++ behind)) new_peer).mode ≡ mode_of 772)
    × ((parse_c1 zeros_mac (front ++ (digest ++ behind)) new_peer).client_digest ≡ digest)
parse_c1-signed_example =
    parse_c1-signed zeros_mac front digest behind 772 new_peer refl refl (omega arith) front_place
      (inl refl)

make_s1-IsSigned_example :
    IsSigned zeros_mac 772 (make_s1 zeros_mac 9 ones (record new_peer { mode = complex1 }))
make_s1-IsSigned_example =
    make_s1-IsSigned zeros_mac 9 ones 772 (record new_peer { mode = complex1 }) length-ones
      (λ k m. refl) (inl refl) refl
