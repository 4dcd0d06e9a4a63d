-- ===== src/Rtsp/Rtp.antt =====
-- librtsp/rtp.go and ParseRTP of librtsp/rtp_unpack.go: RTP packets and the interleaved framing.
use ggmpeg.Prelude.{
  ℕ, zero, suc, ◌+◌, ◌-◌, ◌*◌, ◌/◌, ◌%◌, ◌^◌, ◌≤◌, ◌<◌, ◌≡◌, refl, sym, ap, ◌∙◌, ◌≢◌, ◌↔◌, ◌⊎◌, inl,
  inr, Bool, true, false, not, ◌&&◌, ◌||◌, Option, none, some, List, [], ◌∷◌, ◌++◌, append-nil,
  append_assoc, arith, ltb, leb, ◌==◌, if◌then◌else◌, ltb→lt, lt→ltb, leb→le, ==_iff, tests,
  Bool-cases, Option-cases, length, get_elem?, set, length-append, get_or, take, drop, replicate,
  take-append-drop, length-take, length-drop, length-replicate, Bytes, IsByte, All, All-append, at,
  has_bit, put_be16, put_be24, put_be32, be16_at, be24_at, be32_at,
}
pub mod RoundTrip

abbrev pub rtp_header_size : ℕ
rtp_header_size = 12

abbrev pub rtp_version : ℕ
rtp_version = 2

pub record RtpPacker : Type 0 where
  pub payload_type : ℕ
  pub ssrc : ℕ
  pub seq : ℕ

unfoldable pub new_rtp_packer : ℕ → ℕ → RtpPacker
new_rtp_packer payload_type ssrc = record {
  payload_type = payload_type;
  ssrc = ssrc;
  seq = ssrc % 2 ^ 16;
}

-- One packet, and the packer with the next sequence number.
unfoldable pub pack : RtpPacker → Bool → ℕ → Bytes → Bytes × RtpPacker
pack p marker timestamp payload = (
  (rtp_version * 2 ^ 6)
      ∷ (p.payload_type % 2 ^ 7 + (if marker then 2 ^ 7 else 0))
      ∷ (put_be16 p.seq ++ (put_be32 timestamp ++ (put_be32 p.ssrc ++ payload))),
  record p { seq = (p.seq + 1) % 2 ^ 16 },
)

unfoldable pub set_seq : RtpPacker → ℕ → RtpPacker
set_seq p s = record p { seq = s }

-- `$`, the channel, the length in 16 bits, the packet.
unfoldable pub interleave_frame : ℕ → Bytes → Bytes
interleave_frame channel payload = b'$' ∷ channel ∷ (put_be16 (length payload) ++ payload)

pub record RtpPacket : Type 0 where
  pub payload_type : ℕ
  pub sequence_num : ℕ
  pub timestamp : ℕ
  pub ssrc : ℕ
  pub marker : Bool
  pub payload : Bytes

pub data RtpError : Type 0 where
  too_short truncated_csrc truncated_extension_header truncated_extension : RtpError
  padding_without_body padding_too_long : RtpError
  unsupported_version : ℕ → RtpError

pub data Parsed {κ} (B : Type κ) : Type κ where
  malformed : RtpError → Parsed B
  parsed : B → Parsed B

-- `if err != nil { return nil, err }` in front of what follows.
infixl 5 ◌>>=◌ ◌>>◌
abbrev pub ◌>>=◌ {κ μ} : {B : Type κ} {C : Type μ} → Parsed B → (B → Parsed C) → Parsed C
malformed why >>= next = malformed why
parsed x >>= next = next x

abbrev pub ◌>>◌ {κ} : {C : Type κ} → Parsed (Unit {0}) → Parsed C → Parsed C
malformed why >> next = malformed why
parsed _ >> next = next

abbrev pub require : Bool → RtpError → Parsed (Unit {0})
require false why = malformed why
require true why = parsed tt

-- The offset behind the extension header that starts at `off`.
unfoldable pub skip_extension : Bytes → ℕ → Parsed ℕ
skip_extension buf off = do
  require (leb (off + 4) (length buf)) truncated_extension_header
  let off' = off + 4 + be16_at (drop (off + 2) buf) 0 * 4
  require (leb off' (length buf)) truncated_extension
  parsed off'

-- The end of the payload in front of the padding.
unfoldable pub skip_padding : Bytes → ℕ → Parsed ℕ
skip_padding buf off = do
  require (leb 1 (length buf - off)) padding_without_body
  let pad_len = at buf (length buf - 1)
  require (leb pad_len (length buf - off)) padding_too_long
  parsed (length buf - pad_len)

-- `off` never passes the end where the subtraction `end - off` is taken.
unfoldable pub parse_rtp : Bytes → Parsed RtpPacket
unfolding skip_extension skip_padding
parse_rtp buf = do
  require (leb rtp_header_size (length buf)) too_short
  let v = at buf 0 / 2 ^ 6
  require (v == rtp_version) (unsupported_version v)
  let csrc_end = rtp_header_size + 4 * (at buf 0 % 2 ^ 4)
  require (leb csrc_end (length buf)) truncated_csrc
  off ← if has_bit (at buf 0) 4 then skip_extension buf csrc_end else parsed csrc_end
  end ← if has_bit (at buf 0) 5 then skip_padding buf off else parsed (length buf)
  parsed (record {
    payload_type = at buf 1 % 2 ^ 7;
    sequence_num = be16_at buf 2;
    timestamp = be32_at buf 4;
    ssrc = be32_at buf 8;
    marker = has_bit (at buf 1) 7;
    payload = take (end - off) (drop off buf);
  })
