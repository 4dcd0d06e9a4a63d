-- ===== src/Hls.antt =====
-- libhls/align.go: the time stamps of audio frames, put on the raster of their length.
use ggmpeg.Prelude.{
  ℕ, zero, suc, ◌+◌, ◌-◌, ◌*◌, ◌/◌, ◌%◌, ◌^◌, ◌≤◌, ◌<◌, ◌≡◌, refl, sym, ap, ◌∙◌, ◌≢◌, ◌↔◌, ◌⊎◌, inl,
  inr, Bool, true, false, not, ◌&&◌, ◌||◌, Option, none, some, List, [], ◌∷◌, ◌++◌, append-nil,
  append_assoc, arith, ltb, leb, ◌==◌, if◌then◌else◌, ltb→lt, lt→ltb, leb→le, le→leb, leb-false→lt,
  ltb-false→le, ==_iff, tests, Bool-cases, Option-cases, length, get_elem?, set, length-append,
  get_or, take, drop, replicate, take-append-drop, length-take, length-drop, length-replicate,
  take-append_left, drop-append_left, take_whole, drop_whole, drop-append_past, take-append_past,
  Bytes, IsByte, All, All-append, at, has_bit, put_be16, put_be24, put_be32, be16_at, be24_at,
  be32_at,
}
use native.Mathlib.Nat.{suc-mul, add-mul, one-mul}
pub mod Tables
pub mod Lift
mod Tests

pub record Align : Type 0 where
  pub frame_num : ℕ
  pub frame_base : ℕ

abbrev pub syncms : ℕ
syncms = 2

-- The state after a frame, and its time stamp.
unfoldable pub align : Align → ℕ → ℕ → Align × ℕ
align a dts inc =
    let est_pts = (a.frame_base + a.frame_num * inc) % 2 ^ 64 in
    let d_pts = if leb dts est_pts then est_pts - dts else dts - est_pts in
    if leb d_pts (syncms * 90)
    then (record a { frame_num = (a.frame_num + 1) % 2 ^ 64 }, est_pts)
    else (record { frame_num = 1; frame_base = dts }, dts)

-- A run of frames, one call of `align` after the other.
unfoldable pub align_all : Align → ℕ → List ℕ → List ℕ
align_all a inc [] = []
align_all a inc (dts ∷ rest) = (align a dts inc).1 ∷ align_all (align a dts inc).0 inc rest

-- The raster of a length from a base on.
unfoldable pub raster : ℕ → ℕ → ℕ → List ℕ
raster base inc zero = []
raster base inc (suc n) = base ∷ raster (base + inc) inc n

-- Each time stamp is within 180 ticks of its place on the raster.
unfoldable pub is_near : ℕ → ℕ → List ℕ → Bool
is_near base inc [] = true
is_near base inc (dts ∷ rest) =
    let more = is_near (base + inc) inc rest in leb dts (base + 180) && leb base (dts + 180) && more

on_raster :
    (a : Align) (inc base dts : ℕ)
    → base ≡ a.frame_base + a.frame_num * inc
    → dts ≤ base + 180
    → base ≤ dts + 180
    → base < 2 ^ 64
    → a.frame_num + 1 < 2 ^ 64
    → align a dts inc ≡ (record a { frame_num = a.frame_num + 1 }, base)
unfolding align
on_raster a inc base dts e h0 h1 h2 h3 =
    let est : (a.frame_base + a.frame_num * inc) % 2 ^ 64 ≡ base = omega arith in
    let num : (a.frame_num + 1) % 2 ^ 64 ≡ a.frame_num + 1 = omega arith in
    let near : leb (if leb dts base then base - dts else dts - base) 180 ≡ true = ground arith in
    rw (est, near, num) refl

next_place :
    (base frame_base n inc : ℕ)
    → base ≡ frame_base + n * inc
    → base + inc ≡ frame_base + (n + 1) * inc
next_place base frame_base n inc e = omega (arith, add-mul n 1 inc, one-mul inc)

below : (base inc n : ℕ) → base + suc n * inc < 2 ^ 64 → base < 2 ^ 64
below base inc n h = omega (arith, suc-mul n inc)

beyond : (base inc n : ℕ) → base + suc n * inc < 2 ^ 64 → base + inc + n * inc < 2 ^ 64
beyond base inc n h = omega (arith, suc-mul n inc)

-- However the time stamps waver, by at most 2 ms (180 ticks) around a raster that starts where the
-- state expects the next frame, they come out exactly on it; as long as the raster and the number of
-- frames stay below 2 ^ 64.
pub align_all-raster :
    (a : Align) (inc base : ℕ) (frames : List ℕ)
    → base ≡ a.frame_base + a.frame_num * inc
    → is_near base inc frames ≡ true
    → base + length frames * inc < 2 ^ 64
    → a.frame_num + length frames < 2 ^ 64
    → align_all a inc frames ≡ raster base inc (length frames)
unfolding align_all align raster is_near
align_all-raster a inc base [] e h h0 h1 = refl
align_all-raster a inc base (dts ∷ rest) e h h0 h1 =
    let here : align a dts inc ≡ (record a { frame_num = a.frame_num + 1 }, base) =
      on_raster a inc base dts e (ground arith) (ground arith) (below base inc (length rest) h0)
        (omega arith) in
    rw here (
      ap (λ out. base ∷ out)
        (align_all-raster (record a { frame_num = a.frame_num + 1 }) inc (base + inc) rest
          (next_place base a.frame_base a.frame_num inc e) (ground arith)
          (beyond base inc (length rest) h0) (omega arith)))
