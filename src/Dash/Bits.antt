-- ===== src/Dash/Bits.antt =====
-- The bit reader of libdash/dash.go. A method that moves the position is an action: a function of
-- the reader that returns its result with the reader behind it.
use ggmpeg.Prelude.{
  ℕ, zero, suc, ◌+◌, ◌-◌, ◌*◌, ◌/◌, ◌%◌, ◌^◌, ◌≤◌, ◌<◌, ◌≡◌, refl, sym, ap, ◌∙◌, ◌≢◌, ◌↔◌, ◌⊎◌, inl,
  inr, Bool, true, false, not, ◌&&◌, ◌||◌, Option, none, some, List, [], ◌∷◌, ◌++◌, append-nil,
  append_assoc, arith, ltb, leb, ◌==◌, if◌then◌else◌, ltb→lt, lt→ltb, leb→le, le→leb, leb-false→lt,
  ltb-false→le, ==_iff, tests, Bool-cases, Option-cases, length, get_elem?, set, length-append,
  get_or, take, drop, replicate, take-append-drop, length-take, length-drop, length-replicate,
  take-append_left, drop-append_left, take_whole, drop_whole, drop-append_past, take-append_past,
  Bytes, IsByte, All, All-append, at, has_bit, put_be16, put_be24, put_be32, be16_at, be24_at,
  be32_at,
}
use ggmpeg.Prelude.Int.{ℤ, pos, sub_ℕ}
pub mod Codes
pub mod Read

pub record BitReader : Type 0 where
  pub buf : Bytes
  pub pos : ℕ

abbrev pub new_bit_reader : Bytes → BitReader
new_bit_reader b = record { buf = b; pos = 0 }

abbrev pub Action : Type 0 → Type 0
Action A = BitReader → A × BitReader

infixl 5 ◌>>=◌ ◌>>◌
unfoldable pub ◌>>=◌ : {A B : Type 0} → Action A → (A → Action B) → Action B
◌>>=◌ m f r = f (m r).0 (m r).1

unfoldable pub ◌>>◌ : {A B : Type 0} → Action A → Action B → Action B
◌>>◌ m k r = k (m r).1

unfoldable pub give : {A : Type 0} → A → Action A
give a r = (a, r)

-- The loop of `readBits`: the bits that are left, and the value so far.
unfoldable pub bits_loop : ℕ → ℕ → Action (ℕ × Bool)
bits_loop zero v r = ((v, true), r)
bits_loop (suc n) v r =
    let bit = at r.buf (r.pos / 8) / 2 ^ (7 - r.pos % 8) % 2 in
    let rest = bits_loop n ((v * 2 + bit) % 2 ^ 32) (record r { pos = r.pos + 1 }) in
    if leb (length r.buf) (r.pos / 8) then ((0, false), r) else rest

-- The value, and whether there were enough bits; if not, those that were left are consumed.
unfoldable pub read_bits : ℕ → Action (ℕ × Bool)
read_bits n = bits_loop n 0

-- `v, _ := b.readBits(n)`
unfoldable pub read_uint : ℕ → Action ℕ
unfolding ◌>>=◌ give
read_uint n = do v ← read_bits n; give v.0

-- The loop of `readUE` that counts zeros, on fuel; `none` stands for its `return 0`.
unfoldable pub zeros_loop : ℕ → ℕ → Action (Option ℕ)
zeros_loop zero leading r = (none, r)
zeros_loop (suc fuel) leading r =
    let ((bit, ok), r') = read_bits 1 r in
    let rest = zeros_loop fuel (leading + 1) r' in
    if not ok
    then (none, r')
    else if not (bit == 0)
    then (some leading, r')
    else if ltb 32 (leading + 1)
    then (none, r')
    else rest

-- The number behind its zeros: `(1 << zeros) - 1` as a uint32, and as many bits more.
unfoldable pub ue_value : Option ℕ → Action ℕ
ue_value none r = (0, r)
ue_value (some leading) r =
    let val = (2 ^ leading + 2 ^ 32 - 1) % 2 ^ 32 in
    let (extra, r') = read_uint leading r in
    if ltb 0 leading then ((val + extra) % 2 ^ 32, r') else (val, r)

unfoldable pub read_ue : Action ℕ
unfolding ◌>>=◌
read_ue = do leading ← zeros_loop 33 0; ue_value leading

unfoldable pub se_value : ℕ → ℤ
se_value v = if v % 2 == 0 then sub_ℕ 0 (v / 2) else pos ((v + 1) % 2 ^ 32 / 2)

unfoldable pub read_se : Action ℤ
unfolding ◌>>=◌ give
read_se = do v ← read_ue; give (se_value v)
