-- ===== src/Prelude/Fields.antt =====
-- Byte strings as lists of numbers, and the fixed-width big-endian fields of the wire formats.
-- `x >> k` is `x / 2 ^ k`, `x & (2 ^ k - 1)` is `x % 2 ^ k`, and `|` of fields that share no bit
-- is their sum; a narrowing conversion to w bits is `% 2 ^ w`.
use Prim.Native.Nat.{ℕ, suc, ◌+◌, ◌*◌, ◌/◌, ◌%◌, ◌^◌, ◌<◌}
use mathlib.Core.List.{List, [], ◌∷◌, ◌++◌}
use mathlib.Core.Bool.{Bool}
use ggmpeg.Prelude.Tests.{◌==◌}
use ggmpeg.Prelude.Lists.{get_or}

abbrev pub Bytes : Type 0
Bytes = List ℕ

abbrev pub IsByte : ℕ → Type 0
IsByte b = b < 256

abbrev pub All {ℓ κ} : {A : Type ℓ} → (A → Type κ) → List A → Type κ
All P [] = Unit
All P (x ∷ xs) = P x × All P xs

pub All-append {ℓ κ} :
    {A : Type ℓ} (P : A → Type κ) (xs ys : List A) → All P xs → All P ys → All P (xs ++ ys)
All-append P [] ys h k = k
All-append P (x ∷ xs) ys (h, hs) k = (h, All-append P xs ys hs k)

-- `b[i]`; every use in the models is behind the source's own length check.
abbrev pub at : Bytes → ℕ → ℕ
at b i = get_or b i 0

-- `x & (1 << k) != 0`
abbrev pub has_bit : ℕ → ℕ → Bool
has_bit x k = (x / 2 ^ k % 2) == 1

-- binary.BigEndian.PutUint16 and PutUint32, and the low 24 bits.
abbrev pub put_be16 : ℕ → Bytes
put_be16 x = (x / 2 ^ 8 % 256) ∷ (x % 256) ∷ []

abbrev pub put_be24 : ℕ → Bytes
put_be24 x = (x / 2 ^ 16 % 256) ∷ (x / 2 ^ 8 % 256) ∷ (x % 256) ∷ []

abbrev pub put_be32 : ℕ → Bytes
put_be32 x = (x / 2 ^ 24 % 256) ∷ (x / 2 ^ 16 % 256) ∷ (x / 2 ^ 8 % 256) ∷ (x % 256) ∷ []

-- binary.BigEndian.Uint16 and Uint32 of the bytes from `i` on.
abbrev pub be16_at : Bytes → ℕ → ℕ
be16_at b i = at b i * 2 ^ 8 + at b (suc i)

abbrev pub be24_at : Bytes → ℕ → ℕ
be24_at b i = at b i * 2 ^ 16 + at b (suc i) * 2 ^ 8 + at b (suc (suc i))

abbrev pub be32_at : Bytes → ℕ → ℕ
be32_at b i =
    at b i * 2 ^ 24 + at b (suc i) * 2 ^ 16 + at b (suc (suc i)) * 2 ^ 8 + at b (suc (suc (suc i)))
