-- ===== src/Srt/Demux/Keyframe.antt =====
-- What containsAnnexBKeyframe of libsrt/tsdemux.go finds.
use ggmpeg.Prelude.{
  ℕ, zero, suc, ◌%◌, ◌^◌, ◌<◌, ◌≡◌, refl, sym, ap, ◌∙◌, ◌⊎◌, inl, inr, true, [], ◌∷◌, ◌++◌,
  append_assoc, arith, length, take, drop, take-append-drop, Bytes, at,
}
use ggmpeg.Srt.Demux.{keyframe_loop, contains_annexb_keyframe}

-- A start code with a unit header of type 5 (IDR) behind it.
pub record HasIdr (b : Bytes) : Type 0 where
  pub before : Bytes
  pub header : ℕ
  pub after : Bytes
  pub split : b ≡ before ++ (0 ∷ 0 ∷ 1 ∷ header ∷ after)
  pub idr : header % 2 ^ 5 ≡ 5

put_before : (front b : Bytes) → HasIdr b → HasIdr (front ++ b)
put_before front b w = record {
  before = front ++ w.before;
  header = w.header;
  after = w.after;
  split =
      ap (λ x. front ++ x) w.split
      ∙ sym (append_assoc front w.before (0 ∷ 0 ∷ 1 ∷ w.header ∷ w.after));
  idr = w.idr;
}

past : (k : ℕ) (b : Bytes) → HasIdr (drop k b) → HasIdr b
past k b w = rw take-append-drop at (put_before (take k b) (drop k b) w)

three : (h : ℕ) (r : Bytes) → h % 2 ^ 5 ≡ 5 → HasIdr (0 ∷ 0 ∷ 1 ∷ h ∷ r)
three h r e = record { before = []; header = h; after = r; split = refl; idr = e }

heads : (b : Bytes) → 4 < length b → b ≡ at b 0 ∷ at b 1 ∷ at b 2 ∷ at b 3 ∷ at b 4 ∷ drop 5 b
heads (x ∷ y ∷ z ∷ u ∷ v ∷ b) h = refl
heads (x ∷ y ∷ z ∷ u ∷ []) h = ground arith
heads (x ∷ y ∷ z ∷ []) h = ground arith
heads (x ∷ y ∷ []) h = ground arith
heads (x ∷ []) h = ground arith
heads [] h = ground arith

round :
    (n : ℕ) (b : Bytes)
    → keyframe_loop (suc n) b ≡ true
    → (4 < length b × at b 0 ≡ 0 × at b 1 ≡ 0 × at b 2 ≡ 1 × at b 3 % 2 ^ 5 ≡ 5)
      ⊎ (4 < length b × at b 1 ≡ 0 × at b 2 ≡ 0 × at b 3 ≡ 1 × at b 4 % 2 ^ 5 ≡ 5)
      ⊎ keyframe_loop n (drop 4 b) ≡ true
      ⊎ keyframe_loop n (drop 5 b) ≡ true
      ⊎ keyframe_loop n (drop 1 b) ≡ true
unfolding keyframe_loop
round n b e = ground arith

loop_lem : (n : ℕ) (b : Bytes) → keyframe_loop n b ≡ true → HasIdr b
unfolding keyframe_loop
loop_lem zero b e = ground arith
loop_lem (suc n) b e = elim (round n b e) [
  | inl (h, e0, e1, e2, e3) ↦ rw (heads b h, e0, e1, e2) (three (at b 3) (at b 4 ∷ drop 5 b) e3)
  | inr (inl (h, e1, e2, e3, e4)) ↦
      rw (heads b h, e1, e2, e3)
        (put_before (at b 0 ∷ []) (0 ∷ 0 ∷ 1 ∷ at b 4 ∷ drop 5 b) (three (at b 4) (drop 5 b) e4))
  | inr (inr (inl e4)) ↦ past 4 b (loop_lem n (drop 4 b) e4)
  | inr (inr (inr (inl e5))) ↦ past 5 b (loop_lem n (drop 5 b) e5)
  | inr (inr (inr (inr e1))) ↦ past 1 b (loop_lem n (drop 1 b) e1)
]

-- What contains_annexb_keyframe calls a key frame has a unit of type 5 behind a start code.
pub contains_annexb_keyframe_lem : (b : Bytes) → contains_annexb_keyframe b ≡ true → HasIdr b
unfolding contains_annexb_keyframe
contains_annexb_keyframe_lem b e = loop_lem (length b) b e
