-- ===== src/Rtsp/Reassembler/RoundTrip.antt =====
-- The fragments of PackNAL through the reassembler (librtsp/h264.go, librtsp/rtp_unpack.go).
use ggmpeg.Prelude.{
  ℕ, zero, suc, ◌+◌, ◌*◌, ◌%◌, ◌^◌, ◌≤◌, ◌<◌, ◌≡◌, refl, ap, ◌∙◌, ◌≢◌, inl, inr, Bool, true, false,
  none, some, List, [], ◌∷◌, ◌++◌, append_assoc, arith, leb, if◌then◌else◌, leb→le, leb-false→lt,
  Bool-cases, Option-cases, length, drop, take-append-drop, length-drop, take_whole, drop_whole,
  Bytes, All,
}
use ggmpeg.Rtsp.Rtp.{RtpPacket}
use ggmpeg.Rtsp.H264.{fragment_loop, fu_indicator, fu_header}
use ggmpeg.Rtsp.Reassembler.{Reassembler, absorb_fragment, absorb, flush, push_payload, push}

abbrev pub packet : ℕ → Bool → Bytes → RtpPacket
packet ts marker payload = record {
  payload_type = 96;
  sequence_num = 0;
  timestamp = ts;
  ssrc = 0;
  marker = marker;
  payload = payload;
}

-- The payloads of one access unit, with the marker on the last packet.
unfoldable pub receive_unit : Reassembler → ℕ → List Bytes → Reassembler × List Bytes × ℕ
receive_unit r ts [] = (r, [], 0)
receive_unit r ts (p ∷ []) = push r (packet ts true p)
receive_unit r ts (p ∷ q ∷ ps) = receive_unit (push r (packet ts false p)).0 ts (q ∷ ps)

-- The same with no marker at all.
unfoldable pub run : Reassembler → ℕ → List Bytes → Reassembler
run r ts [] = r
run r ts (p ∷ ps) = run (push r (packet ts false p)).0 ts ps

pub run-append :
    (r : Reassembler) (ts : ℕ) (ps qs : List Bytes) → run r ts (ps ++ qs) ≡ run (run r ts ps) ts qs
unfolding run
run-append r ts [] qs = refl
run-append r ts (p ∷ ps) qs = run-append (push r (packet ts false p)).0 ts ps qs

-- A payload that the early returns do not apply to.
abbrev pub IsComplete : Bytes → Type 0
IsComplete [] = ⊥
IsComplete (hdr ∷ []) = hdr % 2 ^ 5 ≢ 28
IsComplete (hdr ∷ b ∷ tail) = Unit {0}

absorb-ne-none :
    (r : Reassembler) (hdr : ℕ) (tail : Bytes) → IsComplete (hdr ∷ tail) → absorb r hdr tail ≢ none
unfolding absorb
absorb-ne-none r hdr [] h = ground arith
absorb-ne-none r hdr (b ∷ tail) h = ground arith

absorb-some :
    (r : Reassembler) (hdr : ℕ) (tail : Bytes)
    → IsComplete (hdr ∷ tail)
    → (r' : Reassembler) × (absorb r hdr tail ≡ some r')
absorb-some r hdr tail h = elim (Option-cases (absorb r hdr tail)) [
  | inl e ↦ absurd (absorb-ne-none r hdr tail h e)
  | inr found ↦ found
]

flush_unmarked : (r : Reassembler) → flush r false ≡ (r, [], 0)
unfolding flush
flush_unmarked r = ground arith

push_last :
    (r : Reassembler) (ts : ℕ) (p : Bytes)
    → IsComplete p
    → push r (packet ts true p) ≡ flush (push r (packet ts false p)).0 true
unfolding push push_payload
push_last r ts [] h = absurd h
push_last r ts (hdr ∷ tail) h =
    let (r', e) = absorb-some (record r { pending_ts = ts }) hdr tail h in
    rw (e, push_payload) (rw (flush_unmarked r'))

pub receive_unit-run :
    (r : Reassembler) (ts : ℕ) (p : Bytes) (ps : List Bytes)
    → All IsComplete (p ∷ ps)
    → receive_unit r ts (p ∷ ps) ≡ flush (run r ts (p ∷ ps)) true
unfolding receive_unit run
receive_unit-run r ts p [] h = push_last r ts p h.0
receive_unit-run r ts p (q ∷ ps) h = receive_unit-run (push r (packet ts false p)).0 ts q ps h.1

absorb_fu :
    (r : Reassembler) (nri nal_type : ℕ) (start end : Bool) (chunk : Bytes)
    → nri < 4
    → nal_type < 32
    → absorb r (fu_indicator nri) (fu_header nal_type start end ∷ chunk)
      ≡ some (
          let begun = if start then (nri * 2 ^ 5 + nal_type) ∷ [] else r.fu_buf in
          if end
          then record r { pending = r.pending ++ ((begun ++ chunk) ∷ []); fu_buf = [] }
          else record r { fu_buf = begun ++ chunk })
unfolding absorb absorb_fragment
absorb_fu r nri nal_type true true chunk hn ht = ground arith
absorb_fu r nri nal_type true false chunk hn ht = ground arith
absorb_fu r nri nal_type false true chunk hn ht = ground arith
absorb_fu r nri nal_type false false chunk hn ht = ground arith

run_fu :
    (r : Reassembler) (ts nri nal_type : ℕ) (start end : Bool) (chunk : Bytes)
    → nri < 4
    → nal_type < 32
    → (push r (packet ts false (fu_indicator nri ∷ fu_header nal_type start end ∷ chunk))).0 ≡ (
        let begun = if start then (nri * 2 ^ 5 + nal_type) ∷ [] else r.fu_buf in
        if end
        then record r {
          pending = r.pending ++ ((begun ++ chunk) ∷ []);
          fu_buf = [];
          pending_ts = ts;
        }
        else record r { fu_buf = begun ++ chunk; pending_ts = ts })
unfolding push push_payload
run_fu r ts nri nal_type start end chunk hn ht =
    rw (absorb_fu (record r { pending_ts = ts }) nri nal_type start end chunk hn ht, push_payload)
      (rw flush_unmarked)

fragment_loop_empty :
    (fuel frag_size nri nal_type : ℕ) → fragment_loop fuel false frag_size nri nal_type [] ≡ []
unfolding fragment_loop
fragment_loop_empty zero frag_size nri nal_type = refl
fragment_loop_empty (suc fuel) frag_size nri nal_type = refl

-- The whole loop: what the last fragment closes is the NAL unit, or its rest where it has begun.
pub run-fragment_loop :
    (fuel frag_size : ℕ) (r : Reassembler) (ts nri nal_type : ℕ) (start : Bool) (body : Bytes)
    → 0 < frag_size
    → nri < 4
    → nal_type < 32
    → body ≢ []
    → length body ≤ fuel
    → run r ts (fragment_loop fuel start frag_size nri nal_type body) ≡ record {
      fu_buf = [];
      pending =
          r.pending ++ (((if start then (nri * 2 ^ 5 + nal_type) ∷ [] else r.fu_buf) ++ body) ∷ []);
      pending_ts = ts;
    }
unfolding run fragment_loop
run-fragment_loop fuel frag_size r ts nri nal_type start [] hf hn ht ne hl = absurd (ne refl)
run-fragment_loop zero frag_size r ts nri nal_type start (b ∷ body) hf hn ht ne hl =
    absurd (omega arith)
run-fragment_loop (suc fuel) frag_size r ts nri nal_type start (b ∷ body) hf hn ht ne hl =
    elim (Bool-cases (leb (length (b ∷ body)) frag_size)) [
      | inl e ↦
          rw (e, run_fu r ts nri nal_type start true _ hn ht)
            (rw (
              take_whole (b ∷ body) frag_size (leb→le _ _ e),
              drop_whole (b ∷ body) frag_size (leb→le _ _ e),
              fragment_loop_empty fuel frag_size nri nal_type,
            ))
      | inr e ↦
          rw (e, run_fu r ts nri nal_type start false _ hn ht)
            (run-fragment_loop fuel frag_size _ ts nri nal_type false (drop frag_size (b ∷ body)) hf
                hn ht
                (λ empty. absurd (
                  omega (
                    arith,
                    ap (length {A = ℕ}) empty,
                    length-drop frag_size (b ∷ body),
                    leb-false→lt _ _ e,
                  )))
                (omega (arith, length-drop frag_size (b ∷ body)))
              ∙ rw (append_assoc, take-append-drop))
    ]
