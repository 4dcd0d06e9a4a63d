-- ===== src/Rtsp/Reassembler.antt =====
-- H264Reassembler of librtsp/rtp_unpack.go: NAL units out of RTP payloads.
use ggmpeg.Prelude.{
  ℕ, zero, suc, ◌+◌, ◌-◌, ◌*◌, ◌/◌, ◌%◌, ◌^◌, ◌≤◌, ◌<◌, ◌≡◌, refl, sym, ap, ◌∙◌, ◌≢◌, ◌↔◌, ◌⊎◌, inl,
  inr, Bool, true, false, not, ◌&&◌, ◌||◌, Option, none, some, List, [], ◌∷◌, ◌++◌, append-nil,
  append_assoc, arith, ltb, leb, ◌==◌, if◌then◌else◌, ltb→lt, lt→ltb, leb→le, ==_iff, tests,
  Bool-cases, Option-cases, length, get_elem?, set, length-append, get_or, take, drop, replicate,
  take-append-drop, length-take, length-drop, length-replicate, Bytes, IsByte, All, All-append, at,
  has_bit, put_be16, put_be24, put_be32, be16_at, be24_at, be32_at,
}
use ggmpeg.Rtsp.Rtp.{RtpPacket}
pub mod RoundTrip
pub mod Units

pub record Reassembler : Type 0 where
  pub fu_buf : Bytes
  pub pending : List Bytes
  pub pending_ts : ℕ

-- The STAP-A loop: sizes in 16 bits, each followed by its NAL unit.
unfoldable pub stap_loop : ℕ → Bytes → List Bytes
stap_loop zero body = []
stap_loop (suc fuel) body =
    let n = be16_at body 0 in
    let rest = drop 2 body in
    let nals = stap_loop fuel (drop n rest) in
    if ltb (length body) 2 then [] else if ltb (length rest) n then [] else take n rest ∷ nals

-- An FU-A fragment behind its indicator `hdr`.
unfoldable pub absorb_fragment : Reassembler → ℕ → ℕ → Bytes → Reassembler
absorb_fragment r hdr fu_header body =
    let begun =
      if has_bit fu_header 7 then (hdr / 2 ^ 5 * 2 ^ 5 + fu_header % 2 ^ 5) ∷ [] else r.fu_buf in
    let whole = begun ++ body in
    if has_bit fu_header 6
    then record r { pending = r.pending ++ (whole ∷ []); fu_buf = [] }
    else record r { fu_buf = whole }

-- `none` is the early return on a fragment with no FU header.
unfoldable pub absorb : Reassembler → ℕ → Bytes → Option Reassembler
unfolding stap_loop absorb_fragment
absorb r hdr tail =
    let nal_type = hdr % 2 ^ 5 in
    if leb 1 nal_type && leb nal_type 23
    then some (record r { pending = r.pending ++ ((hdr ∷ tail) ∷ []) })
    else if nal_type == 24
    then some (record r { pending = r.pending ++ stap_loop (length tail) tail })
    else if nal_type == 28
    then elim tail [ [] ↦ none | fu_header ∷ body ↦ some (absorb_fragment r hdr fu_header body) ]
    else some r

-- The NAL units of the access unit that a marker ends, and its timestamp.
unfoldable pub flush : Reassembler → Bool → Reassembler × List Bytes × ℕ
flush r marker = elim r.pending [
  | [] ↦ (r, [], 0)
  | n ∷ nals ↦ if marker then (record r { pending = [] }, n ∷ nals, r.pending_ts) else (r, [], 0)
]

unfoldable pub push_payload : Reassembler → RtpPacket → Bytes → Reassembler × List Bytes × ℕ
unfolding absorb flush
push_payload r pkt [] = (r, [], 0)
push_payload r pkt (hdr ∷ tail) =
    let r' = record r { pending_ts = pkt.timestamp } in
    elim (absorb r' hdr tail) [ none ↦ (r', [], 0) | some r'' ↦ flush r'' pkt.marker ]

unfoldable pub push : Reassembler → RtpPacket → Reassembler × List Bytes × ℕ
unfolding push_payload
push r pkt = push_payload r pkt pkt.payload
