-- ===== src/Dash/Dcr/Arrays.antt =====
-- The configuration record of H.265: units in arrays, and the parsers of librtmp/rtsp_server.go and
-- libdash/dash.go.
use ggmpeg.Prelude.{
  ℕ, zero, suc, ◌+◌, ◌*◌, ◌/◌, ◌%◌, ◌^◌, ◌<◌, ◌≡◌, refl, sym, ap, ◌∙◌, ◌⊎◌, inl, inr, false, Option,
  none, some, List, [], ◌∷◌, ◌++◌, append_assoc, arith, ltb, ◌==◌, if◌then◌else◌, Bool-cases,
  Option-cases, length, length-append, drop, take-append_left, drop-append_left, drop-append_past,
  Bytes, All, at, put_be16,
}
use ggmpeg.Dash.Sps.{parse_hevc_sps_dimensions}
use ggmpeg.Dash.Dcr.{
  HevcSets, no_sets, first_of, keep_set, nalus_loop, arrays_loop, check_sets,
  parse_hevc_dcr_for_rtsp, size_in_nalus, size_in_arrays, parse_hevc_dcr_dimensions,
}
use ggmpeg.Dash.Dcr.Read.{be16_lem}

-- An array of a record of H.265: the type, and its units.
abbrev pub NalArray : Type 0
NalArray = ℕ × List Bytes

unfoldable pub put_nalus : List Bytes → Bytes
put_nalus [] = []
put_nalus (n ∷ ns) = put_be16 (length n) ++ (n ++ put_nalus ns)

unfoldable pub put_arrays : List NalArray → Bytes
put_arrays [] = []
put_arrays ((t, ns) ∷ more) = t ∷ (put_be16 (length ns) ++ (put_nalus ns ++ put_arrays more))

-- The first unit of a type that is not empty.
unfoldable pub first_nalu : List Bytes → Option Bytes
first_nalu [] = none
first_nalu ([] ∷ ns) = first_nalu ns
first_nalu ((x ∷ n) ∷ ns) = some (x ∷ n)

unfoldable pub or_else : Option Bytes → Option Bytes → Option Bytes
or_else (some b) o = some b
or_else none o = o

unfoldable pub first_set : ℕ → List NalArray → Option Bytes
first_set t [] = none
first_set t ((k, ns) ∷ more) =
    let rest = first_set t more in if k == t then or_else (first_nalu ns) rest else rest

abbrev pub IsNalu : Bytes → Type 0
IsNalu n = (0 < length n) × (length n < 2 ^ 16)

abbrev pub IsArray : NalArray → Type 0
IsArray (t, ns) = (t < 2 ^ 6) × (length ns < 2 ^ 16) × All IsNalu ns

-- The sets behind the units of one array.
abbrev keep_nalus : ℕ → List Bytes → HevcSets → HevcSets
keep_nalus t [] s = s
keep_nalus t (n ∷ ns) s = keep_nalus t ns (keep_set t n s)

nalus_loop-put_nalus :
    (t : ℕ) (ns : List Bytes) (tail : Bytes) (s : HevcSets)
    → All IsNalu ns
    → nalus_loop (length ns) t (put_nalus ns ++ tail) s ≡ inr (keep_nalus t ns s, tail)
unfolding nalus_loop put_nalus
nalus_loop-put_nalus t [] tail s h = refl
nalus_loop-put_nalus t (n ∷ ns) tail s ((hp, hn), hs) =
    let more = put_nalus ns ++ tail in
    let shape : (n ++ put_nalus ns) ++ tail ≡ n ++ more = append_assoc n (put_nalus ns) tail in
    let whole = length-append n more in
    let room : ltb (length (n ++ more)) (length n) ≡ false = ground (arith, whole) in
    rw
      (
        shape,
        be16_lem (length n) hn,
        room,
        take-append_left n more (length n) refl,
        drop-append_left n more (length n) refl,
      )
      (rw (nalus_loop-put_nalus t ns tail (keep_set t n s) hs) (ground arith))

-- The three kinds of sets by the type of their array.
abbrev set_of : ℕ → HevcSets → Option Bytes
set_of t s = if t == 32 then s.vps else if t == 33 then s.sps else s.pps

abbrev IsKind : ℕ → Type 0
IsKind k = (k ≡ 32) ⊎ ((k ≡ 33) ⊎ (k ≡ 34))

keep_set_lem :
    (k t : ℕ) (n : Bytes) (s : HevcSets)
    → IsKind k
    → set_of k (keep_set t n s) ≡ (if t == k then first_of (set_of k s) n else set_of k s)
unfolding keep_set
keep_set_lem k t n s (inl e) = rw e (ground arith)
keep_set_lem k t n s (inr (inl e)) = rw e (ground arith)
keep_set_lem k t n s (inr (inr e)) = rw e (ground arith)

or_else-none : (o : Option Bytes) → or_else o none ≡ o
unfolding or_else
or_else-none none = refl
or_else-none (some b) = refl

or_else_assoc : (a b c : Option Bytes) → or_else (or_else a b) c ≡ or_else a (or_else b c)
unfolding or_else
or_else_assoc none b c = refl
or_else_assoc (some a) b c = refl

first_of_lem :
    (o : Option Bytes) (n : Bytes) (ns : List Bytes)
    → or_else (first_of o n) (first_nalu ns) ≡ or_else o (first_nalu (n ∷ ns))
unfolding or_else first_of first_nalu
first_of_lem none [] ns = refl
first_of_lem none (x ∷ n) ns = refl
first_of_lem (some b) n ns = refl

keep_nalus_lem :
    (k t : ℕ) (ns : List Bytes) (s : HevcSets)
    → IsKind k
    → set_of k (keep_nalus t ns s)
      ≡ (if t == k then or_else (set_of k s) (first_nalu ns) else set_of k s)
unfolding first_nalu
keep_nalus_lem k t [] s h = elim (Bool-cases (t == k)) [
  | inl e ↦ rw e (sym (or_else-none (set_of k s)))
  | inr e ↦ rw e refl
]
keep_nalus_lem k t (n ∷ ns) s h =
    let ih = keep_nalus_lem k t ns (keep_set t n s) h in
    let one = keep_set_lem k t n s h in
    elim (Bool-cases (t == k)) [
      | inl e ↦
          let ih' = rw e at ih in
          let one' = rw e at one in
          rw e (ih' ∙ ap (λ o. or_else o (first_nalu ns)) one' ∙ first_of_lem (set_of k s) n ns)
      | inr e ↦ let ih' = rw e at ih in let one' = rw e at one in rw e (ih' ∙ one')
    ]

abbrev keep_arrays : List NalArray → HevcSets → HevcSets
keep_arrays [] s = s
keep_arrays ((t, ns) ∷ more) s = keep_arrays more (keep_nalus t ns s)

arrays_loop-put_arrays :
    (arrays : List NalArray) (s : HevcSets)
    → All IsArray arrays
    → arrays_loop (length arrays) (put_arrays arrays) s ≡ inr (keep_arrays arrays s)
unfolding arrays_loop put_arrays
arrays_loop-put_arrays [] s h = refl
arrays_loop-put_arrays ((t, ns) ∷ more) s ((ht, hl, hn), hs) =
    let kind : t % 2 ^ 6 ≡ t = omega arith in
    rw (be16_lem (length ns) hl, kind, nalus_loop-put_nalus t ns (put_arrays more) s hn)
      (rw (arrays_loop-put_arrays more (keep_nalus t ns s) hs) (ground arith))

keep_arrays_lem :
    (k : ℕ) (arrays : List NalArray) (s : HevcSets)
    → IsKind k
    → set_of k (keep_arrays arrays s) ≡ or_else (set_of k s) (first_set k arrays)
unfolding first_set
keep_arrays_lem k [] s h = sym (or_else-none (set_of k s))
keep_arrays_lem k ((t, ns) ∷ more) s h =
    let ih = keep_arrays_lem k more (keep_nalus t ns s) h in
    let one = keep_nalus_lem k t ns s h in
    elim (Bool-cases (t == k)) [
      | inl e ↦
          let one' = rw e at one in
          rw e (
            ih
            ∙ ap (λ o. or_else o (first_set k more)) one'
            ∙ or_else_assoc (set_of k s) (first_nalu ns) (first_set k more))
      | inr e ↦ let one' = rw e at one in rw e (ih ∙ ap (λ o. or_else o (first_set k more)) one')
    ]

-- The configuration record: 22 bytes of profile and timing, the count of the arrays, and these.
unfoldable pub hevc_dcr : Bytes → List NalArray → Bytes
hevc_dcr prefix arrays = prefix ++ length arrays ∷ put_arrays arrays

-- What the segmenter's loop over the units of an array does.
abbrev size_or : Option Bytes → Bytes → (ℕ × ℕ) ⊎ Bytes
size_or none tail = inr tail
size_or (some n) tail = inl (parse_hevc_sps_dimensions n)

size_in_nalus-put_nalus :
    (t : ℕ) (ns : List Bytes) (tail : Bytes)
    → All IsNalu ns
    → size_in_nalus (length ns) t (put_nalus ns ++ tail)
      ≡ (if t == 33 then size_or (first_nalu ns) tail else inr tail)
unfolding size_in_nalus put_nalus first_nalu
size_in_nalus-put_nalus t [] tail h = ground arith
size_in_nalus-put_nalus t ([] ∷ ns) tail ((hp, hn), hs) = absurd (omega arith)
size_in_nalus-put_nalus t ((x ∷ n) ∷ ns) tail ((hp, hn), hs) =
    let more = put_nalus ns ++ tail in
    let shape : (n ++ put_nalus ns) ++ tail ≡ n ++ more = append_assoc n (put_nalus ns) tail in
    let whole = length-append n more in
    let len : suc (length n) / 2 ^ 8 % 256 * 2 ^ 8 + suc (length n) % 256 ≡ suc (length n) =
      be16_lem (suc (length n)) hn in
    let room : ltb (suc (length (n ++ more))) (suc (length n)) ≡ false = ground (arith, whole) in
    rw
      (
        shape,
        len,
        room,
        take-append_left n more (length n) refl,
        drop-append_left n more (length n) refl,
      )
      (rw (size_in_nalus-put_nalus t ns tail hs) (ground arith))

-- The dimensions in the first SPS, zeros if there is none.
abbrev pub size_of_set : Option Bytes → ℕ × ℕ
size_of_set none = (0, 0)
size_of_set (some sps) = parse_hevc_sps_dimensions sps

size_in_arrays-put_arrays :
    (arrays : List NalArray)
    → All IsArray arrays
    → size_in_arrays (length arrays) (put_arrays arrays) ≡ size_of_set (first_set 33 arrays)
unfolding size_in_arrays put_arrays first_set or_else
size_in_arrays-put_arrays [] h = refl
size_in_arrays-put_arrays ((t, ns) ∷ more) ((ht, hl, hn), hs) =
    let kind : t % 2 ^ 6 ≡ t = omega arith in
    let ih = size_in_arrays-put_arrays more hs in
    rw (be16_lem (length ns) hl, kind, size_in_nalus-put_nalus t ns (put_arrays more) hn)
      (elim (Bool-cases (t == 33)) [
        | inl e ↦ rw e (elim (Option-cases (first_nalu ns)) [
          | inl none_here ↦ rw none_here (ground (arith, ih))
          | inr (n, found) ↦ rw found (ground arith)
        ])
        | inr e ↦ rw e (ground (arith, ih))
      ])

middle : (xs : Bytes) (x : ℕ) (ys : Bytes) (n : ℕ) → n ≡ length xs → at (xs ++ x ∷ ys) n ≡ x
middle [] x ys n h = rw h refl
middle (y ∷ xs) x ys zero h = absurd (omega arith)
middle (y ∷ xs) x ys (suc n) h = middle xs x ys n (omega arith)

check_sets_lem :
    (s : HevcSets) (vps : Option Bytes) (sps pps : Bytes)
    → s.vps ≡ vps
    → s.sps ≡ some sps
    → s.pps ≡ some pps
    → check_sets (inr s) ≡ inr (record { vps = vps; sps = some sps; pps = some pps })
unfolding check_sets
check_sets_lem s vps sps pps hv hs hp = ground arith

-- A configuration record with arrays of parameter sets, in any order and with any others among
-- them: the parser of the RTSP server gives the first VPS, SPS and PPS, and that of the segmenter
-- the dimensions in this SPS, with profile and level. There are an SPS and a PPS, no unit is empty,
-- the prefix has 22 bytes, there are less than 256 arrays, and types, counts and lengths fit their
-- fields.
pub parse_hevc_dcr-hevc_dcr :
    (prefix : Bytes) (arrays : List NalArray) (sps pps : Bytes)
    → length prefix ≡ 22
    → length arrays < 2 ^ 8
    → All IsArray arrays
    → first_set 33 arrays ≡ some sps
    → first_set 34 arrays ≡ some pps
    → (parse_hevc_dcr_for_rtsp (hevc_dcr prefix arrays)
        ≡ inr (record { vps = first_set 32 arrays; sps = some sps; pps = some pps }))
      × (parse_hevc_dcr_dimensions (hevc_dcr prefix arrays)
          ≡ inr (
            parse_hevc_sps_dimensions sps,
            at (hevc_dcr prefix arrays) 1 % 2 ^ 5,
            at (hevc_dcr prefix arrays) 12,
          ))
unfolding parse_hevc_dcr_for_rtsp parse_hevc_dcr_dimensions hevc_dcr or_else
parse_hevc_dcr-hevc_dcr prefix arrays sps pps hp hc ha h33 h34 =
    let tail = length arrays ∷ put_arrays arrays in
    let whole = length-append prefix tail in
    let long : ltb (length (prefix ++ tail)) 23 ≡ false = ground (arith, whole) in
    let count = middle prefix (length arrays) (put_arrays arrays) 22 (sym hp) in
    let behind : drop 23 (prefix ++ tail) ≡ put_arrays arrays =
      drop-append_past prefix tail 23 1 (omega arith) in
    let s = keep_arrays arrays no_sets in
    (
      rw (long, count, behind, arrays_loop-put_arrays arrays no_sets ha)
          (check_sets_lem s (first_set 32 arrays) sps pps
            (keep_arrays_lem 32 arrays no_sets (inl refl))
            (keep_arrays_lem 33 arrays no_sets (inr (inl refl)) ∙ h33)
            (keep_arrays_lem 34 arrays no_sets (inr (inr refl)) ∙ h34)),
      rw (long, count, behind, size_in_arrays-put_arrays arrays ha, h33) refl,
    )
