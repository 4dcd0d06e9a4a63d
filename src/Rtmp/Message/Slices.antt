-- ===== src/Rtmp/Message/Slices.antt =====
-- The slices that a payload is sent in.
use ggmpeg.Prelude.{
  ℕ, zero, suc, ◌+◌, ◌-◌, ◌≤◌, ◌≡◌, refl, ap, ◌∙◌, [], ◌∷◌, ◌++◌, arith, length, take, drop,
  length-take, length-drop, Bytes,
}
use ggmpeg.Rtmp.Message.{slice}

take_nil : (k : ℕ) → take {A = ℕ} k [] ≡ []
take_nil zero = refl
take_nil (suc k) = refl

take_add : (l k : ℕ) (b : Bytes) → take l b ++ take k (drop l b) ≡ take (l + k) b
take_add zero k b = ap (λ n. take n b) (omega arith)
take_add (suc l) k [] =
    let e : suc (l + k) ≡ suc l + k = omega arith in
    let e1 : take {A = ℕ} (suc (l + k)) [] ≡ take (suc l + k) [] = ap (λ n. take n []) e in
    take_nil k ∙ e1
take_add (suc l) k (x ∷ b) =
    let e : suc (l + k) ≡ suc l + k = omega arith in
    ap (λ t. x ∷ t) (take_add l k b) ∙ ap (λ n. take n (x ∷ b)) e

pub take-slice : (l r : ℕ) (b : Bytes) → l ≤ r → take l b ++ slice l r b ≡ take r b
unfolding slice
take-slice l r b h =
    let e : l + (r - l) ≡ r = omega arith in take_add l (r - l) b ∙ ap (λ n. take n b) e

pub length-slice : (l r : ℕ) (b : Bytes) → l ≤ r → r ≤ length b → length (slice l r b) ≡ r - l
unfolding slice
length-slice l r b h k = omega (arith, length-take (r - l) (drop l b), length-drop l b)
