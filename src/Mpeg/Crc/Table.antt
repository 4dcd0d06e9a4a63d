-- ===== src/Mpeg/Crc/Table.antt =====
-- The table of the CRC (libmpeg/crc32.go) and the division it stands for.
use ggmpeg.Prelude.{
  ℕ, zero, suc, ◌+◌, ◌*◌, ◌%◌, ◌^◌, ◌<◌, ◌≡◌, refl, ap, ◌∙◌, List, [], ◌∷◌, arith, leb,
  if◌then◌else◌, get_or,
}
use Prim.Native.Nat.{bit_xor}
use ggmpeg.Mpeg.Crc.{crc_table}

-- One bit of the division by the polynomial of MPEG-2, in 32 bits.
unfoldable pub divide_bit : ℕ → ℕ
divide_bit x = if leb (2 ^ 31) x then bit_xor (x * 2 % 2 ^ 32) 0x04c11db7 else x * 2 % 2 ^ 32

-- The remainder of a byte that stands in front of 32 zero bits.
unfoldable pub remainder : ℕ → ℕ
remainder j = divide_bit (
    divide_bit
      (divide_bit (divide_bit (divide_bit (divide_bit (divide_bit (divide_bit (j * 2 ^ 24))))))))

remainders : ℕ → ℕ → List ℕ
remainders j zero = []
remainders j (suc n) = remainder j ∷ remainders (j + 1) n

get_or-remainders : (j n i : ℕ) → i < n → get_or (remainders j n) i 0 ≡ remainder (j + i)
unfolding remainders
get_or-remainders j zero i h = ground arith
get_or-remainders j (suc n) zero h = ap remainder (omega arith)
get_or-remainders j (suc n) (suc i) h =
    get_or-remainders (j + 1) n i (omega arith) ∙ ap remainder (omega arith)

all_entries : crc_table ≡ remainders 0 256
unfolding crc_table remainders remainder divide_bit
all_entries = refl

-- Each of the 256 entries of the table is the remainder of its index in the division by 0x04c11db7,
-- bit by bit.
pub crc_table_lem : (j : ℕ) → j < 256 → get_or crc_table j 0 ≡ remainder j
crc_table_lem j h = rw all_entries (get_or-remainders 0 256 j h ∙ ap remainder (omega arith))
