-- ===== src/Live/Annexb.antt =====
-- splitAnnexB of librtmp/srt_server.go: the NAL units of a byte stream. The source keeps indices into
-- its buffer; here a step has the bytes from there on. Of a start code with a zero in front only the
-- place behind it matters, and a byte before the place of the search is never looked at.
use ggmpeg.Prelude.{
  ℕ, zero, suc, ◌+◌, ◌-◌, ◌≤◌, ◌<◌, ◌≡◌, refl, ◌≢◌, inl, inr, true, false, ◌&&◌, Option, none, some,
  List, [], ◌∷◌, ◌++◌, append-nil, arith, ltb, ◌==◌, if◌then◌else◌, lt→ltb, Bool-cases, length,
  length-append, take, drop, take-append_left, drop-append_left, Bytes, All, at,
}

unfoldable pub one_later : Option ℕ → Option ℕ
one_later none = none
one_later (some j) = some (suc j)

-- The index of the first three bytes 0 0 1.
unfoldable pub first_code : Bytes → Option ℕ
unfolding one_later
first_code [] = none
first_code (x ∷ []) = none
first_code (x ∷ y ∷ []) = none
first_code (x ∷ y ∷ z ∷ rest) =
    let behind = one_later (first_code (y ∷ z ∷ rest)) in
    if x == 0 && y == 0 && z == 1 then some 0 else behind

unfoldable pub end_at : Bytes → Option ℕ → ℕ
end_at b none = length b
end_at b (some j) = if ltb 0 j && at b (j - 1) == 0 then j - 1 else j

-- Where a NAL unit at the start of the bytes ends: at the next start code, which may have a zero in
-- front, or with the bytes.
unfoldable pub nal_end : Bytes → ℕ
unfolding first_code end_at
nal_end b = end_at b (first_code b)

-- Each round takes the three bytes of a start code at least.
unfoldable pub split_loop : ℕ → Bytes → List Bytes
split_loop zero b = []
split_loop (suc fuel) b = elim (first_code b) as (λ _. List Bytes) [
  | none ↦ []
  | some j ↦
      let rest = drop (j + 3) b in
      let nals = split_loop fuel (drop (nal_end rest) rest) in
      if ltb 0 (nal_end rest) then take (nal_end rest) rest ∷ nals else nals
]

unfoldable pub split_annexb : Bytes → List Bytes
unfolding split_loop nal_end first_code
split_annexb buf = split_loop (length buf) buf

-- A byte stream with start codes of four bytes.
unfoldable pub join_annexb : List Bytes → Bytes
join_annexb [] = []
join_annexb (n ∷ ns) = 0 ∷ 0 ∷ 0 ∷ 1 ∷ (n ++ join_annexb ns)

abbrev pub last_of : Bytes → ℕ
last_of [] = 0
last_of (x ∷ []) = x
last_of (x ∷ y ∷ ys) = last_of (y ∷ ys)

-- What H.264 guarantees of a NAL unit: no start code within, and no zero at the end.
abbrev pub IsUnit : Bytes → Type 0
IsUnit n = (first_code n ≡ none) × (last_of n ≢ 0)

one_later-none : (o : Option ℕ) → one_later o ≡ none → o ≡ none
unfolding one_later
one_later-none none h = refl
one_later-none (some j) h = cc

-- No code at the front, and none behind.
no_code :
    (x y z : ℕ) (rest : Bytes)
    → first_code (x ∷ y ∷ z ∷ rest) ≡ none
    → ((x == 0 && y == 0 && z == 1) ≡ false) × (first_code (y ∷ z ∷ rest) ≡ none)
unfolding first_code
no_code x y z rest h = elim (Bool-cases (x == 0 && y == 0 && z == 1)) [
  | inl e ↦ let h' = rw e at h in cc
  | inr e ↦ let h' = rw e at h in (e, one_later-none (first_code (y ∷ z ∷ rest)) h')
]

first_code-unit :
    (n tail : Bytes) → IsUnit n → first_code (n ++ 0 ∷ 0 ∷ 0 ∷ 1 ∷ tail) ≡ some (suc (length n))
unfolding first_code one_later
first_code-unit [] tail (hn, hl) = absurd (hl refl)
first_code-unit (x ∷ []) tail (hn, hl) = let e : (x == 0) ≡ false = ground arith in rw e refl
first_code-unit (x ∷ y ∷ []) tail (hn, hl) =
    rw (first_code-unit (y ∷ []) tail (refl, hl)) (ground arith)
first_code-unit (x ∷ y ∷ z ∷ r) tail (hn, hl) =
    let (skip, more) = no_code x y z r hn in
    rw (skip, first_code-unit (y ∷ z ∷ r) tail (more, hl)) refl

zero_behind : (n tail : Bytes) → at (n ++ 0 ∷ tail) (length n) ≡ 0
zero_behind [] tail = refl
zero_behind (x ∷ n) tail = zero_behind n tail

nal_end-unit : (n : Bytes) (ns : List Bytes) → IsUnit n → nal_end (n ++ join_annexb ns) ≡ length n
unfolding nal_end end_at join_annexb
nal_end-unit n [] (hn, hl) = rw append-nil (rw hn refl)
nal_end-unit n (m ∷ ns) (hn, hl) =
    let tail = m ++ join_annexb ns in
    let zero : at (n ++ 0 ∷ 0 ∷ 0 ∷ 1 ∷ tail) (suc (length n) - 1) ≡ 0 =
      let e : suc (length n) - 1 ≡ length n = omega arith in
      rw e (zero_behind n (0 ∷ 0 ∷ 1 ∷ tail)) in
    rw (first_code-unit n tail (hn, hl)) (ground (arith, zero))

length-unit : (n : Bytes) → IsUnit n → 0 < length n
length-unit [] (hn, hl) = absurd (hl refl)
length-unit (x ∷ n) h = omega arith

split_loop-join :
    (fuel : ℕ) (ns : List Bytes)
    → All IsUnit ns
    → length (join_annexb ns) ≤ fuel
    → split_loop fuel (join_annexb ns) ≡ ns
unfolding split_loop join_annexb
split_loop-join zero [] h hf = refl
split_loop-join (suc fuel) [] h hf = unfold first_code in refl
split_loop-join zero (n ∷ ns) h hf = absurd (omega arith)
split_loop-join (suc fuel) (n ∷ ns) (hn, hs) hf =
    let behind = n ++ join_annexb ns in
    let code : first_code (0 ∷ 0 ∷ 0 ∷ 1 ∷ behind) ≡ some 1 = unfold first_code one_later in refl in
    let ends = nal_end-unit n ns hn in
    let some_bytes : ltb 0 (length n) ≡ true = lt→ltb 0 (length n) (length-unit n hn) in
    let ih = split_loop-join fuel ns hs (omega (arith, length-append n (join_annexb ns))) in
    rw (code, split_loop)
      (rw
        (
          ends,
          some_bytes,
          take-append_left n (join_annexb ns) (length n) refl,
          drop-append_left n (join_annexb ns) (length n) refl,
          ih,
        )
        refl)

-- A byte stream of NAL units with start codes of four bytes is split into these units, in order, if
-- none of them holds a start code or ends with a zero.
pub split_annexb-join_annexb :
    (ns : List Bytes) → All IsUnit ns → split_annexb (join_annexb ns) ≡ ns
unfolding split_annexb
split_annexb-join_annexb ns h = split_loop-join (length (join_annexb ns)) ns h (omega arith)
