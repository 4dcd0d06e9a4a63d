-- ===== src/Dash/Bits/Codes.antt =====
-- The codes of H.264 (clause 7.2 and 9.1) as lists of bits: u(n) and the Exp-Golomb code ue(v).
use ggmpeg.Prelude.{
  ℕ, zero, suc, ◌+◌, ◌-◌, ◌*◌, ◌/◌, ◌%◌, ◌^◌, ◌≤◌, ◌<◌, ◌≡◌, refl, inl, inr, List, [], ◌∷◌, ◌++◌,
  arith, ltb, if◌then◌else◌, ltb→lt, ltb-false→le, Bool-cases, length, length-append, replicate,
  Bytes,
}

-- The bits of a byte string, the highest of each byte first.
unfoldable pub bits_of : Bytes → List ℕ
bits_of [] = []
bits_of (x ∷ xs) =
    (x / 2 ^ 7 % 2)
    ∷ (x / 2 ^ 6 % 2)
    ∷ (x / 2 ^ 5 % 2)
    ∷ (x / 2 ^ 4 % 2)
    ∷ (x / 2 ^ 3 % 2)
    ∷ (x / 2 ^ 2 % 2)
    ∷ (x / 2 ^ 1 % 2)
    ∷ (x / 2 ^ 0 % 2)
    ∷ bits_of xs

-- The number that bits stand for, behind those of `v`.
unfoldable pub bits_value : ℕ → List ℕ → ℕ
bits_value v [] = v
bits_value v (b ∷ bs) = bits_value (v * 2 + b) bs

-- u(n), for a number of at most n bits.
unfoldable pub u : ℕ → ℕ → List ℕ
u zero x = []
u (suc n) x = u n (x / 2) ++ (x % 2) ∷ []

-- The position of the highest bit of a positive number; the fuel is the number.
unfoldable pub log2_loop : ℕ → ℕ → ℕ
log2_loop zero n = 0
log2_loop (suc fuel) n = let rest = log2_loop fuel (n / 2) in if ltb n 2 then 0 else suc rest

abbrev pub log2 : ℕ → ℕ
log2 n = log2_loop n n

-- ue(v): as many zeros as v + 1 has bits behind its highest one, then v + 1.
unfoldable pub ue : ℕ → List ℕ
unfolding log2_loop
ue v = let k = log2 (v + 1) in replicate k 0 ++ 1 ∷ u k (v + 1 - 2 ^ k)

pub bits_value-append :
    (v : ℕ) (bs cs : List ℕ) → bits_value v (bs ++ cs) ≡ bits_value (bits_value v bs) cs
unfolding bits_value
bits_value-append v [] cs = refl
bits_value-append v (b ∷ bs) cs = bits_value-append (v * 2 + b) bs cs

pub pow_suc : (n : ℕ) → 2 ^ suc n ≡ 2 * 2 ^ n
pow_suc n = omega arith

pub bits_value-u : (n x : ℕ) → x < 2 ^ n → bits_value 0 (u n x) ≡ x
unfolding bits_value u
bits_value-u zero x h = omega arith
bits_value-u (suc n) x h =
    let half : x / 2 < 2 ^ n = omega (arith, pow_suc n) in
    rw (bits_value-append 0 (u n (x / 2)) ((x % 2) ∷ []), bits_value-u n (x / 2) half) (omega arith)

pub length-u : (n x : ℕ) → length (u n x) ≡ n
unfolding u
length-u zero x = refl
length-u (suc n) x = omega (arith, length-append (u n (x / 2)) ((x % 2) ∷ []), length-u n (x / 2))

pub log2_bounds :
    (fuel n : ℕ) → 0 < n → n ≤ fuel → (2 ^ log2_loop fuel n ≤ n) × (n < 2 ^ suc (log2_loop fuel n))
unfolding log2_loop
log2_bounds zero n h k = absurd (omega arith)
log2_bounds (suc fuel) n h k = elim (Bool-cases (ltb n 2)) [
  | inl e ↦ rw e (omega (arith, ltb→lt n 2 e))
  | inr e ↦ rw e (
      let low : 2 ≤ n = ltb-false→le n 2 e in
      let ih : (2 ^ log2_loop fuel (n / 2) ≤ n / 2) × (n / 2 < 2 ^ suc (log2_loop fuel (n / 2))) =
        log2_bounds fuel (n / 2) (omega arith) (omega arith) in
      omega (arith, pow_suc (log2_loop fuel (n / 2)), pow_suc (suc (log2_loop fuel (n / 2)))))
]
