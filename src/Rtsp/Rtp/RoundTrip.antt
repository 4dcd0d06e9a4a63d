-- ===== src/Rtsp/Rtp/RoundTrip.antt =====
-- Packing and parsing of RTP packets, and the room that a parsed payload takes (librtsp/rtp.go,
-- librtsp/rtp_unpack.go).
use ggmpeg.Prelude.{
  ℕ, zero, suc, ◌+◌, ◌-◌, ◌*◌, ◌/◌, ◌%◌, ◌^◌, ◌≤◌, ◌<◌, ◌≡◌, refl, sym, ap, Bool, true, false, List,
  [], ◌∷◌, arith, leb, ◌==◌, if◌then◌else◌, leb→le, length, take, drop, Bytes, at, has_bit,
}
use ggmpeg.Rtsp.Rtp.{
  rtp_version, RtpPacker, RtpPacket, RtpError, Parsed, parsed, malformed, too_short, truncated_csrc,
  pack, parse_rtp, require, ◌>>=◌, ◌>>◌, skip_extension, skip_padding, rtp_header_size,
}

take-all : {A : Type 0} (n : ℕ) (xs : List A) → n ≡ length xs → take n xs ≡ xs
take-all zero [] h = refl
take-all zero (x ∷ xs) h = absurd (omega arith)
take-all (suc n) [] h = refl
take-all (suc n) (x ∷ xs) h = ap (λ t. x ∷ t) (take-all n xs (omega arith))

-- A packet that `Pack` builds from a 7-bit payload type, a 16-bit sequence number and 32-bit
-- timestamp and source is parsed without an error into the same fields, marker and payload, and the
-- packer goes on with the next sequence number modulo 2 ^ 16.
pub parse_rtp-pack :
    (p : RtpPacker) (marker : Bool) (timestamp : ℕ) (payload : Bytes)
    → p.payload_type < 2 ^ 7
    → p.seq < 2 ^ 16
    → p.ssrc < 2 ^ 32
    → timestamp < 2 ^ 32
    → (parse_rtp (pack p marker timestamp payload).0
        ≡ parsed (record {
          payload_type = p.payload_type;
          sequence_num = p.seq;
          timestamp = timestamp;
          ssrc = p.ssrc;
          marker = marker;
          payload = payload;
        }))
      × ((pack p marker timestamp payload).1 ≡ record p { seq = (p.seq + 1) % 2 ^ 16 })
unfolding parse_rtp pack
parse_rtp-pack p marker timestamp payload ht hs hr hm =
    (ground (arith, take-all (length payload + 12 - 12) payload (omega arith)), refl)

skip_extension_bounds :
    (buf : Bytes) (off off' : ℕ)
    → skip_extension buf off ≡ parsed off'
    → (off ≤ off') × (off' ≤ length buf)
unfolding skip_extension
skip_extension_bounds buf off off' h = ground arith

skip_padding_bounds :
    (buf : Bytes) (off end : ℕ)
    → off ≤ length buf
    → skip_padding buf off ≡ parsed end
    → (off ≤ end) × (end ≤ length buf)
unfolding skip_padding
skip_padding_bounds buf off end h e = ground arith

-- What a successful chain of steps says of its first step.
parsed_step :
    {B C : Type 0} (r : Parsed B) (next : B → Parsed C) {c : C}
    → (r >>= next) ≡ parsed c
    → (x : B) × (r ≡ parsed x) × (next x ≡ parsed c)
parsed_step (malformed why) next e = cc
parsed_step (parsed x) next e = (x, refl, e)

parsed_require :
    {C : Type 0} (test : Bool) (why : RtpError) (next : Parsed C) {c : C}
    → (require test why >> next) ≡ parsed c
    → (test ≡ true) × (next ≡ parsed c)
parsed_require false why next e = cc
parsed_require true why next e = (refl, e)

extension_choice :
    (buf : Bytes) (c : Bool) (o off : ℕ)
    → o ≤ length buf
    → (if c then skip_extension buf o else parsed o) ≡ parsed off
    → (o ≤ off) × (off ≤ length buf)
extension_choice buf true o off h e = skip_extension_bounds buf o off e
extension_choice buf false o off h e = ground arith

padding_choice :
    (buf : Bytes) (c : Bool) (off end : ℕ)
    → off ≤ length buf
    → (if c then skip_padding buf off else parsed (length buf)) ≡ parsed end
    → (off ≤ end) × (end ≤ length buf)
padding_choice buf true off end h e = skip_padding_bounds buf off end h e
padding_choice buf false off end h e = ground arith

parsed-injective : {A : Type 0} {a b : A} → parsed a ≡ parsed b → a ≡ b
parsed-injective e = cc

-- Whatever bytes arrive, the payload of a successful parse is the slice of the input between two
-- offsets that lie in order behind the 12-byte header and within the input.
pub parse_rtp_bounds :
    (buf : Bytes) (pkt : RtpPacket)
    → parse_rtp buf ≡ parsed pkt
    → (off : ℕ) × (end : ℕ) × (rtp_header_size ≤ off)
      × (off ≤ end)
      × (end ≤ length buf)
      × (pkt.payload ≡ take (end - off) (drop off buf))
unfolding parse_rtp
parse_rtp_bounds buf pkt h =
    let (_, h1) = parsed_require (leb rtp_header_size (length buf)) too_short _ h in
    let (_, h2) = parsed_require (at buf 0 / 2 ^ 6 == rtp_version) _ _ h1 in
    let (fits, h3) = parsed_require (leb (csrc_end) (length buf)) truncated_csrc _ h2 in
    let (off, e_off, h4) = parsed_step (behind_extension) _ h3 in
    let (end, e_end, h5) =
      parsed_step (if has_bit (at buf 0) 5 then skip_padding buf off else parsed (length buf)) _
        h4 in
    let o = extension_choice buf (has_bit (at buf 0) 4) csrc_end off (leb→le _ _ fits) e_off in
    let e = padding_choice buf (has_bit (at buf 0) 5) off end o.1 e_end in
    (
      off,
      end,
      omega (arith, o.0),
      e.0,
      e.1,
      sym (ap (λ (p : RtpPacket). p.payload) (parsed-injective h5)),
    )
  where
    csrc_end : ℕ
    csrc_end = rtp_header_size + 4 * (at buf 0 % 2 ^ 4)

    behind_extension : Parsed ℕ
    behind_extension = if has_bit (at buf 0) 4 then skip_extension buf csrc_end else parsed csrc_end
