-- ===== src/Rtsp/Reassembler/Units.antt =====
-- A whole access unit through PackNAL and the reassembler (librtsp/h264.go, librtsp/rtp_unpack.go).
use ggmpeg.Prelude.{
  ℕ, zero, suc, ◌+◌, ◌-◌, ◌*◌, ◌/◌, ◌%◌, ◌^◌, ◌≤◌, ◌<◌, ◌≡◌, refl, sym, ap, ◌∙◌, ◌≢◌, inl, inr,
  Bool, true, false, List, [], ◌∷◌, ◌++◌, append-nil, append_assoc, arith, leb, ◌==◌, if◌then◌else◌,
  leb-false→lt, ==_iff, Bool-cases, length, drop, Bytes, All, All-append,
}
use ggmpeg.Rtsp.H264.{fragment_loop, fragment, pack_nal, default_mtu}
use ggmpeg.Rtsp.Reassembler.{Reassembler, absorb, flush, push_payload, push}
use ggmpeg.Rtsp.Reassembler.RoundTrip.{
  receive_unit, run, run-append, IsComplete, receive_unit-run, run-fragment_loop,
}

-- A NAL unit that H.264 sends as it is: the forbidden bit is clear and the type is 1 to 23.
abbrev pub IsNal : Bytes → Type 0
IsNal [] = ⊥
IsNal (hdr ∷ body) = (hdr < 128) × (1 ≤ hdr % 2 ^ 5) × (hdr % 2 ^ 5 ≤ 23)

abbrev pub effective_mtu : ℕ → ℕ
effective_mtu mtu = if mtu == 0 then default_mtu else mtu

run_single :
    (r : Reassembler) (ts hdr : ℕ) (body : Bytes)
    → IsNal (hdr ∷ body)
    → run r ts ((hdr ∷ body) ∷ [])
      ≡ record r { pending = r.pending ++ ((hdr ∷ body) ∷ []); pending_ts = ts }
unfolding run push push_payload absorb flush
run_single r ts hdr body h = ground arith

run-fragment :
    (r : Reassembler) (ts hdr frag_size : ℕ) (body : Bytes)
    → IsNal (hdr ∷ body)
    → 0 < frag_size
    → body ≢ []
    → run r ts (fragment frag_size hdr body)
      ≡ record { fu_buf = []; pending = r.pending ++ ((hdr ∷ body) ∷ []); pending_ts = ts }
unfolding fragment
run-fragment r ts hdr frag_size body h hf ne = elim (Bool-cases (frag_size == 0)) [
  | inl z ↦ absurd (omega (arith, (==_iff frag_size 0).0 z))
  | inr nz ↦ rw nz (
      run-fragment_loop (length body) frag_size r ts _ _ true body hf (omega arith) (omega arith) ne
        (omega arith)
      ∙ rw split)
]
  where
    split : hdr / 2 ^ 5 % 2 ^ 2 * 2 ^ 5 + hdr % 2 ^ 5 ≡ hdr
    split = omega arith

run-pack_nal :
    (r : Reassembler) (ts mtu : ℕ) (nal : Bytes)
    → IsNal nal
    → 3 ≤ effective_mtu mtu
    → r.fu_buf ≡ []
    → run r ts (pack_nal nal mtu)
      ≡ record { fu_buf = []; pending = r.pending ++ (nal ∷ []); pending_ts = ts }
unfolding pack_nal
run-pack_nal r ts mtu [] h hm e = absurd h
run-pack_nal r ts mtu (hdr ∷ body) h hm e =
    elim (Bool-cases (leb (length (hdr ∷ body)) (effective_mtu mtu))) [
      | inl fits ↦ rw fits (run_single r ts hdr body h ∙ cc)
      | inr big ↦ rw big (
          run-fragment r ts hdr (effective_mtu mtu - 2) body h (omega arith)
            (λ empty. absurd (omega (arith, ap (length {A = ℕ}) empty, leb-false→lt _ _ big))))
    ]

fragment_loop-IsComplete :
    (fuel : ℕ) (start : Bool) (frag_size nri nal_type : ℕ) (body : Bytes)
    → All IsComplete (fragment_loop fuel start frag_size nri nal_type body)
unfolding fragment_loop
fragment_loop-IsComplete zero start frag_size nri nal_type body = tt
fragment_loop-IsComplete (suc fuel) start frag_size nri nal_type [] = tt
fragment_loop-IsComplete (suc fuel) start frag_size nri nal_type (b ∷ body) =
    (tt, fragment_loop-IsComplete fuel false frag_size nri nal_type (drop frag_size (b ∷ body)))

pack_nal-IsComplete : (nal : Bytes) (mtu : ℕ) → IsNal nal → All IsComplete (pack_nal nal mtu)
unfolding pack_nal fragment
pack_nal-IsComplete [] mtu h = tt
pack_nal-IsComplete (hdr ∷ body) mtu h =
    elim (Bool-cases (leb (length (hdr ∷ body)) (effective_mtu mtu))) [
      | inl fits ↦ rw fits (single body, tt)
      | inr big ↦ rw big (elim (Bool-cases (effective_mtu mtu - 2 == 0)) [
        | inl z ↦ rw z tt
        | inr nz ↦ rw nz (fragment_loop-IsComplete (length body) true _ _ _ body)
      ])
    ]
  where
    single : (t : Bytes) → IsComplete (hdr ∷ t)
    single [] = omega arith
    single (x ∷ t) = tt

-- The payloads of an access unit: those of its NAL units, one after the other.
unfoldable pub pack_unit : ℕ → List Bytes → List Bytes
pack_unit mtu [] = []
pack_unit mtu (nal ∷ nals) = pack_nal nal mtu ++ pack_unit mtu nals

run-pack_unit :
    (r : Reassembler) (ts mtu : ℕ) (nal : Bytes) (nals : List Bytes)
    → All IsNal (nal ∷ nals)
    → 3 ≤ effective_mtu mtu
    → r.fu_buf ≡ []
    → run r ts (pack_unit mtu (nal ∷ nals))
      ≡ record { fu_buf = []; pending = r.pending ++ (nal ∷ nals); pending_ts = ts }
unfolding pack_unit
run-pack_unit r ts mtu nal [] h hm e = rw append-nil (run-pack_nal r ts mtu nal h.0 hm e)
run-pack_unit r ts mtu nal (next ∷ nals) h hm e =
    let r' : Reassembler = record {
      fu_buf = [];
      pending = r.pending ++ (nal ∷ []);
      pending_ts = ts;
    } in
    run-append r ts (pack_nal nal mtu) (pack_unit mtu (next ∷ nals))
    ∙ rw (run-pack_nal r ts mtu nal h.0 hm e)
        (run-pack_unit r' ts mtu next nals h.1 hm refl ∙ rw append_assoc)

pub pack_nal_head :
    (nal : Bytes) (mtu : ℕ)
    → IsNal nal
    → 3 ≤ effective_mtu mtu
    → (p : Bytes) × (ps : List Bytes) × (pack_nal nal mtu ≡ p ∷ ps)
pack_nal_head nal mtu h hm = go (pack_nal nal mtu) refl
  where
    none_pending : Reassembler
    none_pending = record { fu_buf = []; pending = []; pending_ts = 0 }

    go :
        (l : List Bytes)
        → pack_nal nal mtu ≡ l
        → (p : Bytes) × (ps : List Bytes) × (pack_nal nal mtu ≡ p ∷ ps)
    go [] e =
        let left : run none_pending 0 (pack_nal nal mtu) ≡ none_pending =
          unfold run in rw (e, run) in
        cc (
          ap (λ (r : Reassembler). r.pending)
            (sym left ∙ run-pack_nal none_pending 0 mtu nal h hm refl))
    go (p ∷ ps) e = (p, ps, e)

pack_unit-IsComplete :
    (nals : List Bytes) (mtu : ℕ) → All IsNal nals → All IsComplete (pack_unit mtu nals)
unfolding pack_unit
pack_unit-IsComplete [] mtu h = tt
pack_unit-IsComplete (nal ∷ nals) mtu (h, hs) =
    All-append IsComplete (pack_nal nal mtu) (pack_unit mtu nals) (pack_nal-IsComplete nal mtu h)
      (pack_unit-IsComplete nals mtu hs)

-- The payloads that `PackNAL` makes of the NAL units of an access unit, whole or in fragments, sent
-- in order with the marker on the last packet, make a reassembler with nothing pending return exactly
-- those NAL units and the timestamp, and leave nothing pending. The NAL units have types 1 to 23 and a
-- clear forbidden bit, there is one at least, and the MTU leaves room for a fragment.
pub receive_unit-pack_unit :
    (r : Reassembler) (ts mtu : ℕ) (nal : Bytes) (nals : List Bytes)
    → All IsNal (nal ∷ nals)
    → 3 ≤ effective_mtu mtu
    → r.fu_buf ≡ []
    → r.pending ≡ []
    → receive_unit r ts (pack_unit mtu (nal ∷ nals))
      ≡ (record { fu_buf = []; pending = []; pending_ts = ts }, nal ∷ nals, ts)
receive_unit-pack_unit r ts mtu nal nals h hm ef ep =
    let (p, ps, e) = pack_nal_head nal mtu h.0 hm in
    let joined : pack_unit mtu (nal ∷ nals) ≡ p ∷ (ps ++ pack_unit mtu nals) =
      unfold pack_unit in rw e in
    rw joined (
      receive_unit-run r ts p (ps ++ pack_unit mtu nals)
        (rw joined at (pack_unit-IsComplete (nal ∷ nals) mtu h))
      ∙ rw (← joined) (rw (run-pack_unit r ts mtu nal nals h hm ef) (rw ep (unfold flush in refl))))
