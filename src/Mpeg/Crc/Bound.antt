-- ===== src/Mpeg/Crc/Bound.antt =====
-- The checksum has 32 bits (libmpeg/crc32.go).
use ggmpeg.Prelude.{
  ℕ, zero, suc, ◌*◌, ◌/◌, ◌%◌, ◌^◌, ◌<◌, ◌≡◌, refl, Bool, true, ◌&&◌, List, [], ◌∷◌, arith, ltb,
  get_or, Bytes,
}
use Prim.Native.Nat.{bit_xor, bitwise, digits, differ, bit_xor-bitwise}
use ggmpeg.Mpeg.Crc.{crc_loop, crc32, crc_table}

power : ℕ → ℕ
power zero = 1
power (suc k) = power k * 2

differ_lt : (x y : ℕ) → x < 2 → y < 2 → differ x y < 2
differ_lt zero y hx hy = hy
differ_lt (suc x) zero hx hy = hx
differ_lt (suc zero) (suc zero) hx hy = omega arith
differ_lt (suc zero) (suc (suc y)) hx hy = ground arith
differ_lt (suc (suc x)) (suc y) hx hy = ground arith

digits_lt : (k n a b : ℕ) → a < power k → b < power k → digits (λ x. x) differ n a b < power k
unfolding power
digits_lt k zero a b ha hb = hb
digits_lt k (suc n) zero b ha hb = hb
digits_lt zero (suc n) (suc a) b ha hb = omega arith
digits_lt (suc k) (suc n) (suc a) b ha hb =
    let high : digits (λ x. x) differ n (suc a / 2) (b / 2) < power k =
      digits_lt k n (suc a / 2) (b / 2) (omega arith) (omega arith) in
    let low : differ (suc a % 2) (b % 2) < 2 =
      differ_lt (suc a % 2) (b % 2) (omega arith) (omega arith) in
    omega arith

pub bit_xor_lt : (a b : ℕ) → a < 2 ^ 32 → b < 2 ^ 32 → bit_xor a b < 2 ^ 32
unfolding power
bit_xor_lt a b ha hb =
    let e : bit_xor a b ≡ bitwise (λ x. x) differ a b = λ i. bit_xor-bitwise a b i in
    let h : digits (λ x. x) differ a a b < power 32 = digits_lt 32 a a b ha hb in rw e h

all_below : List ℕ → Bool
all_below [] = true
all_below (x ∷ xs) = let rest = all_below xs in ltb x (2 ^ 32) && rest

get_or_below : (xs : List ℕ) (j : ℕ) → all_below xs ≡ true → get_or xs j 0 < 2 ^ 32
unfolding all_below
get_or_below [] j h = omega arith
get_or_below (x ∷ xs) zero h = ground arith
get_or_below (x ∷ xs) (suc j) h = get_or_below xs j (ground arith)

crc_table_below : all_below crc_table ≡ true
unfolding all_below crc_table
crc_table_below = refl

crc_loop_lt : (crc : ℕ) (b : Bytes) → crc < 2 ^ 32 → crc_loop crc b < 2 ^ 32
unfolding crc_loop
crc_loop_lt crc [] h = h
crc_loop_lt crc (x ∷ b) h =
    let j = bit_xor (crc / 2 ^ 24 % 256) x in
    crc_loop_lt (bit_xor (crc * 2 ^ 8 % 2 ^ 32) (get_or crc_table j 0)) b (
      bit_xor_lt (crc * 2 ^ 8 % 2 ^ 32) (get_or crc_table j 0) (omega arith)
        (get_or_below crc_table j crc_table_below))

-- The checksum of any bytes is below 2 ^ 32.
pub crc32_lt : (b : Bytes) → crc32 b < 2 ^ 32
unfolding crc32
crc32_lt b = crc_loop_lt 0xFFFFFFFF b (omega arith)
