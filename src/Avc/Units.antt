-- ===== src/Avc/Units.antt =====
-- The units of an access unit one by one (libavc/avc.go, librtsp/rtp_unpack.go).
use ggmpeg.Prelude.{
  ℕ, zero, suc, ◌%◌, ◌^◌, ◌<◌, ◌≡◌, refl, sym, ◌∙◌, Bool, true, false, not, ◌&&◌, ◌||◌, none, List,
  [], ◌∷◌, ◌++◌, append-nil, append_assoc, arith, ltb, leb, ◌==◌, if◌then◌else◌, length,
  length-append, take-append_left, drop-append_left, Bytes, All, at, put_be32, be32_at,
}
use ggmpeg.Rtsp.H264.{avcc_from_nals}
use ggmpeg.Avc.{
  start_code, nalu_aud, Annexb, write_sps_pps, write_nal, convert_nal, annexb_loop, get_annexb_h264,
}

-- What is written for the units that are left, one by one. `sets` are the parameter sets that came,
-- `written` tells whether some are out.
unfoldable pub byte_stream : Bytes → Bytes → Bool → List Bytes → Bytes
byte_stream info sets written [] = []
byte_stream info sets written (n ∷ ns) =
    let t = at n 0 % 2 ^ 5 in
    let used = if length sets == 0 then info else sets in
    let unit = start_code ++ n in
    let after_idr = byte_stream info sets true ns in
    let after = byte_stream info sets written ns in
    let after_set = byte_stream info (sets ++ unit) written ns in
    if t == 5
    then (if written then unit ++ after_idr else used ++ (unit ++ after_idr))
    else if t == 1 || t == 6
    then unit ++ after
    else if t == 7 || t == 8
    then after_set
    else after

pub record IsUnit (n : Bytes) : Type 0 where
  pub not_empty : 0 < length n
  pub length_fits : length n < 2 ^ 32

-- The flag tells whether the buffer of parameter sets holds any.
abbrev IsKept : Annexb → Type 0
IsKept a = a.has_sps_pps ≡ not (length a.pps == 0)

convert_nal-IsKept : (info n : Bytes) (a : Annexb) → IsKept a → IsKept (convert_nal info n a)
unfolding convert_nal write_nal write_sps_pps
convert_nal-IsKept info n a k = ground (arith, length-append a.pps (start_code ++ n))

convert_nal-byte_stream :
    (info n : Bytes) (ns : List Bytes) (a : Annexb)
    → IsKept a
    → let a1 = convert_nal info n a in
      a1.out ++ byte_stream info a1.pps a1.has_write_sps_pps ns
      ≡ a.out ++ byte_stream info a.pps a.has_write_sps_pps (n ∷ ns)
unfolding convert_nal write_nal write_sps_pps byte_stream
convert_nal-byte_stream info n ns a k =
    let unit = start_code ++ n in
    let after_idr = byte_stream info a.pps true ns in
    let used = if length a.pps == 0 then info else a.pps in
    let same : (if a.has_sps_pps then a.pps else info) ≡ used = ground arith in
    let first =
      append_assoc (a.out ++ used) unit after_idr ∙ append_assoc a.out used (unit ++ after_idr) in
    let again = append_assoc a.out unit after_idr in
    let plain = append_assoc a.out unit (byte_stream info a.pps a.has_write_sps_pps ns) in
    ground (arith, same, first, again, plain)

annexb_loop-step :
    (m : ℕ) (info n rest : Bytes) (a : Annexb)
    → IsUnit n
    → annexb_loop (suc m) info (put_be32 (length n) ++ (n ++ rest)) a
      ≡ annexb_loop m info rest (convert_nal info n a)
unfolding annexb_loop
annexb_loop-step m info n rest a u =
    let len : be32_at (put_be32 (length n) ++ (n ++ rest)) 0 ≡ length n = ground arith in
    let enough : (leb (length n) (length (n ++ rest)) && ltb 0 (length n)) ≡ true =
      ground (arith, length-append n rest) in
    let some_left : (length (put_be32 (length n) ++ (n ++ rest)) == 0) ≡ false = ground arith in
    let four : ltb (length (put_be32 (length n) ++ (n ++ rest))) 4 ≡ false = ground arith in
    rw
      (
        some_left,
        four,
        len,
        enough,
        take-append_left n rest (length n) refl,
        drop-append_left n rest (length n) refl,
      )
      refl

annexb_loop_end : (m : ℕ) (info : Bytes) (a : Annexb) → annexb_loop (suc m) info [] a ≡ (a, none)
unfolding annexb_loop
annexb_loop_end m info a = refl

annexb_loop-avcc_from_nals :
    (m : ℕ) (info : Bytes) (nals : List Bytes) (a : Annexb)
    → All IsUnit nals
    → IsKept a
    → length (avcc_from_nals nals) < m
    → ((annexb_loop m info (avcc_from_nals nals) a).0.out
        ≡ a.out ++ byte_stream info a.pps a.has_write_sps_pps nals)
      × ((annexb_loop m info (avcc_from_nals nals) a).1 ≡ none)
unfolding avcc_from_nals byte_stream
annexb_loop-avcc_from_nals zero info nals a us k h = absurd (omega arith)
annexb_loop-avcc_from_nals (suc m) info [] a us k h =
    rw (annexb_loop_end m info a) (sym (append-nil a.out), refl)
annexb_loop-avcc_from_nals (suc m) info (n ∷ nals) a (u, us) k h =
    let short : length (avcc_from_nals nals) < m =
      ground (arith, length-append n (avcc_from_nals nals)) in
    let (out, ok) =
      annexb_loop-avcc_from_nals m info nals (convert_nal info n a) us
        (convert_nal-IsKept info n a k) short in
    rw (annexb_loop-step m info n (avcc_from_nals nals) a u)
      (out ∙ convert_nal-byte_stream info n nals a k, ok)

long_enough : (n : Bytes) (nals : List Bytes) → ltb (length (avcc_from_nals (n ∷ nals))) 4 ≡ false
unfolding avcc_from_nals
long_enough n nals = ground arith

-- Length-prefixed units that are not empty are converted with no error, into an access unit delimiter
-- and what `byte_stream` says, unit by unit. The fuel is the source's length and one.
pub get_annexb_h264-avcc_from_nals :
    (info n : Bytes) (nals : List Bytes)
    → All IsUnit (n ∷ nals)
    → let (a, e) = get_annexb_h264 info (avcc_from_nals (n ∷ nals)) in
      (a.out ≡ nalu_aud ++ byte_stream info [] false (n ∷ nals)) × (e ≡ none)
unfolding get_annexb_h264
get_annexb_h264-avcc_from_nals info n nals us =
    let src = avcc_from_nals (n ∷ nals) in
    let a : Annexb = record {
      pps = [];
      has_sps_pps = false;
      has_write_sps_pps = false;
      out = nalu_aud;
    } in
    let long : ltb (length src) 4 ≡ false = long_enough n nals in
    rw long (annexb_loop-avcc_from_nals (suc (length src)) info (n ∷ nals) a us refl (omega arith))
