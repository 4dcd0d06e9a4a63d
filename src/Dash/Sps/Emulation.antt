-- ===== src/Dash/Sps/Emulation.antt =====
-- The emulation prevention of H.264 (clause 7.4.1), and how libdash/dash.go strips it.
use ggmpeg.Prelude.{
  ℕ, zero, suc, ◌+◌, ◌<◌, ◌≡◌, refl, ap, ◌∙◌, ◌≢◌, inl, inr, false, ◌&&◌, [], ◌∷◌, ◌++◌, arith, leb,
  ◌==◌, if◌then◌else◌, leb-false→lt, Bool-cases, replicate, Bytes,
}
use ggmpeg.Dash.Sps.{strip_emulation}

-- What an encoder does: behind two zeros a byte up to 3 gets a 3 in front. The number counts the
-- zeros that were written last.
unfoldable pub prevent : ℕ → Bytes → Bytes
prevent leading [] = []
prevent leading (x ∷ xs) =
    let count = if x == 0 then leading + 1 else 0 in
    let restart : ℕ = if x == 0 then 1 else 0 in
    let escaped = 3 ∷ x ∷ prevent restart xs in
    let plain = x ∷ prevent count xs in if leading == 2 && leb x 3 then escaped else plain

abbrev AtZeros : ℕ → Bytes → Type 0
AtZeros leading xs =
    strip_emulation (replicate leading 0 ++ prevent leading xs) ≡ replicate leading 0 ++ xs

strip_other : (x : ℕ) (b : Bytes) → x ≢ 0 → strip_emulation (x ∷ b) ≡ x ∷ strip_emulation b
unfolding strip_emulation
strip_other x [] h = refl
strip_other x (y ∷ []) h = refl
strip_other x (y ∷ z ∷ rest) h = ground arith

-- A single zero, or two, in front of another byte stay.
strip_zero : (x : ℕ) (b : Bytes) → x ≢ 0 → strip_emulation (0 ∷ x ∷ b) ≡ 0 ∷ x ∷ strip_emulation b
unfolding strip_emulation
strip_zero x [] h = refl
strip_zero x (z ∷ rest) h =
    let e : (x == 0) ≡ false = ground arith in
    rw e (ap (λ (t : Bytes). 0 ∷ t) (strip_other x (z ∷ rest) h))

strip_zeros :
    (x : ℕ) (b : Bytes)
    → x ≢ 0
    → x ≢ 3
    → strip_emulation (0 ∷ 0 ∷ x ∷ b) ≡ 0 ∷ 0 ∷ x ∷ strip_emulation b
unfolding strip_emulation
strip_zeros x b h0 h3 =
    let e : (x == 3) ≡ false = ground arith in rw e (ap (λ (t : Bytes). 0 ∷ t) (strip_zero x b h0))

mutual
  unfolding prevent strip_emulation

  strip-none : (xs : Bytes) → AtZeros 0 xs
  strip-none [] = refl
  strip-none (zero ∷ xs) = strip-one xs
  strip-none (suc x ∷ xs) =
      let e : (suc x == 0) ≡ false = ground arith in
      rw e (
        strip_other (suc x) (prevent 0 xs) (λ e. omega arith)
        ∙ ap (λ (t : Bytes). suc x ∷ t) (strip-none xs))

  strip-one : (xs : Bytes) → AtZeros 1 xs
  strip-one [] = refl
  strip-one (zero ∷ xs) = strip-two xs
  strip-one (suc x ∷ xs) =
      let e : (suc x == 0) ≡ false = ground arith in
      rw e (
        strip_zero (suc x) (prevent 0 xs) (λ e. omega arith)
        ∙ ap (λ (t : Bytes). 0 ∷ suc x ∷ t) (strip-none xs))

  strip-two : (xs : Bytes) → AtZeros 2 xs
  strip-two [] = refl
  strip-two (zero ∷ xs) = ap (λ (t : Bytes). 0 ∷ 0 ∷ t) (strip-one xs)
  strip-two (suc x ∷ xs) =
      let e : (suc x == 0) ≡ false = ground arith in
      rw e (elim (Bool-cases (leb (suc x) 3)) [
        | inl small ↦ rw small (
            ap (λ (t : Bytes). 0 ∷ 0 ∷ t)
              (strip_other (suc x) (prevent 0 xs) (λ e. omega arith)
                ∙ ap (λ (t : Bytes). suc x ∷ t) (strip-none xs)))
        | inr large ↦ rw large (
            strip_zeros (suc x) (prevent 0 xs) (λ e. omega arith)
              (λ e. let big : 3 < suc x = leb-false→lt (suc x) 3 large in omega arith)
            ∙ ap (λ (t : Bytes). 0 ∷ 0 ∷ suc x ∷ t) (strip-none xs))
      ])

-- Stripping gives back the bytes that went through emulation prevention, whatever they are.
pub strip_emulation-prevent : (xs : Bytes) → strip_emulation (prevent 0 xs) ≡ xs
strip_emulation-prevent xs = strip-none xs
