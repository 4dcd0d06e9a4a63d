-- ===== src/Mpeg/Frame/Chunks.antt =====
-- What Marshal of libmpeg/pes.go writes into the room of a packet.
use ggmpeg.Prelude.{
  ℕ, zero, suc, ◌+◌, ◌-◌, ◌≤◌, ◌<◌, ◌≡◌, refl, sym, ap, true, false, some, List, [], ◌∷◌, ◌++◌,
  arith, ltb, leb, ◌==◌, length, take, drop, length-drop, drop_whole, Bytes,
}
use ggmpeg.Mpeg.Pes.{Pes, remain_pes, marshal_pes, marshal_payload, marshal_after}

-- The header is out, and the payload up to the index.
pub record IsStarted (p : Pes) : Type 0 where
  pub header_out : p.header_index ≡ length p.header_data
  pub index_pos : 0 < p.index
  pub index_lt : p.index < length p.payload

abbrev pub pending : Pes → Bytes
pending p = drop p.index p.payload

pub remain_pes-started : (p : Pes) → IsStarted p → remain_pes p ≡ (p, length (pending p))
unfolding remain_pes
remain_pes-started p w =
    let on : (p.index == 0) ≡ false = ground (arith, w.index_pos) in
    let out : length p.header_data - p.header_index ≡ 0 = ground (arith, w.header_out) in
    let rest : length p.payload - p.index ≡ length (pending p) =
      sym (length-drop p.index p.payload) in
    rw (on, out, rest) (ap (λ k. (p, k)) (omega arith))

-- The rest of the payload fits.
pub marshal_pes-last :
    (p : Pes) (n : ℕ)
    → IsStarted p
    → 0 < n
    → length (pending p) ≤ n
    → marshal_pes p n ≡ some (record p { index = length p.payload }, pending p, true)
unfolding marshal_pes marshal_payload
marshal_pes-last p n w hn h =
    let room : (n == 0) ≡ false = ground arith in
    let out : ltb p.header_index (length p.header_data) ≡ false = ground (arith, w.header_out) in
    let more : ltb p.index (length p.payload) ≡ true = ground (arith, w.index_lt) in
    let fits : leb (length (pending p)) n ≡ true = ground arith in rw (room, out, more, fits) refl

-- It does not.
pub marshal_pes-middle :
    (p : Pes) (n : ℕ)
    → IsStarted p
    → 0 < n
    → n < length (pending p)
    → marshal_pes p n ≡ some (record p { index = p.index + n }, take n (pending p), false)
unfolding marshal_pes marshal_payload
marshal_pes-middle p n w hn h =
    let room : (n == 0) ≡ false = ground arith in
    let out : ltb p.header_index (length p.header_data) ≡ false = ground (arith, w.header_out) in
    let more : ltb p.index (length p.payload) ≡ true = ground (arith, w.index_lt) in
    let fits : leb (length (pending p)) n ≡ false = ground arith in rw (room, out, more, fits) refl

pub step-IsStarted :
    (p : Pes) (n : ℕ)
    → IsStarted p
    → n < length (pending p)
    → IsStarted (record p { index = p.index + n })
step-IsStarted p n w h = record {
  header_out = w.header_out;
  index_pos = ground (arith, w.index_pos);
  index_lt = ground (arith, length-drop p.index p.payload);
}

drop-drop {ℓ} :
    {A : Type ℓ} → (m n k : ℕ) (xs : List A) → k ≡ m + n → drop n (drop m xs) ≡ drop k xs
drop-drop zero n k xs h = let e : n ≡ k = omega arith in ap (λ i. drop i xs) e
drop-drop (suc m) n (suc k) (x ∷ xs) h = drop-drop m n k xs (omega arith)
drop-drop (suc m) n (suc k) [] h = drop_whole [] n (omega arith)
drop-drop (suc m) n zero xs h = ground arith

-- What the step leaves.
pub pending_lem :
    (p : Pes) (n : ℕ) → pending (record p { index = p.index + n }) ≡ drop n (pending p)
pending_lem p n = sym (drop-drop p.index n (p.index + n) p.payload refl)

-- A PES with a header of which nothing is written.
pub record IsFresh (p : Pes) : Type 0 where
  pub header_none : p.header_index ≡ 0
  pub index_zero : p.index ≡ 0
  pub has_header : 0 < length p.header_data
  pub has_payload : 0 < length p.payload

-- What Marshal has written when the header and n bytes of the payload are out.
abbrev pub ready : Pes → ℕ → Pes
ready p n = record p { header_index = length p.header_data; index = n }

all_header : (p : Pes) → IsFresh p → drop p.header_index p.header_data ≡ p.header_data
all_header p w = ap (λ i. drop i p.header_data) w.header_none

all_payload : (p : Pes) → IsFresh p → drop p.index p.payload ≡ p.payload
all_payload p w = ap (λ i. drop i p.payload) w.index_zero

-- All of it fits.
pub marshal_pes-whole :
    (p : Pes) (n : ℕ)
    → IsFresh p
    → length p.header_data + length p.payload ≤ n
    → marshal_pes p n ≡ some (ready p (length p.payload), p.header_data ++ p.payload, true)
unfolding marshal_pes marshal_payload marshal_after
marshal_pes-whole p n w h =
    let room : (n == 0) ≡ false = ground (arith, w.has_payload) in
    let some_header : ltb p.header_index (length p.header_data) ≡ true =
      ground (arith, w.has_header, w.header_none) in
    let fits : leb (length p.header_data) n ≡ true = ground arith in
    let more : ltb p.index (length p.payload) ≡ true =
      ground (arith, w.has_payload, w.index_zero) in
    let fits_all : leb (length p.payload) (n - length p.header_data) ≡ true = ground arith in
    rw (room, some_header, all_header p w, fits, more, all_payload p w, fits_all) refl

-- The header and a part of the payload fit.
pub marshal_pes-first :
    (p : Pes) (n : ℕ)
    → IsFresh p
    → length p.header_data < n
    → n < length p.header_data + length p.payload
    → marshal_pes p n
      ≡ some (
        ready p (n - length p.header_data),
        p.header_data ++ take (n - length p.header_data) p.payload,
        false,
      )
unfolding marshal_pes marshal_payload marshal_after
marshal_pes-first p n w h0 h1 =
    let room : (n == 0) ≡ false = ground (arith, w.has_payload) in
    let some_header : ltb p.header_index (length p.header_data) ≡ true =
      ground (arith, w.has_header, w.header_none) in
    let fits : leb (length p.header_data) n ≡ true = ground arith in
    let more : ltb p.index (length p.payload) ≡ true =
      ground (arith, w.has_payload, w.index_zero) in
    let fits_all : leb (length p.payload) (n - length p.header_data) ≡ false = ground arith in
    let at_start : p.index + (n - length p.header_data) ≡ n - length p.header_data =
      ground (arith, w.index_zero) in
    rw (room, some_header, all_header p w, fits, more, all_payload p w, fits_all, at_start) refl

pub ready-IsStarted : (p : Pes) (n : ℕ) → 0 < n → n < length p.payload → IsStarted (ready p n)
ready-IsStarted p n h0 h1 = record { header_out = refl; index_pos = h0; index_lt = h1 }
