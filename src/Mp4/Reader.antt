-- ===== src/Mp4/Reader.antt =====
-- A reader of boxes by ISO 14496-12: a size that counts its 8 byte header, a type, and a body.
use ggmpeg.Prelude.{
  ℕ, zero, suc, ◌+◌, ◌-◌, ◌^◌, ◌<◌, ◌≡◌, refl, sym, false, ◌||◌, Option, none, some, List, [], ◌∷◌,
  ◌++◌, append_assoc, arith, ltb, ◌==◌, if◌then◌else◌, length, length-append, take, drop,
  take-append_left, drop-append_left, Bytes, All, put_be32, be32_at,
}
use ggmpeg.Mp4.Box.{Box, box_bytes}

-- The boxes of a byte string, none if they do not fill it exactly.
unfoldable pub read_boxes_loop : ℕ → Bytes → Option (List Box)
read_boxes_loop zero b = none
read_boxes_loop (suc n) b =
    let size = be32_at b 0 in
    let first : Box = record { type = take 4 (drop 4 b); body = take (size - 8) (drop 8 b) } in
    let rest = read_boxes_loop n (drop (size - 8) (drop 8 b)) in
    if length b == 0
    then some []
    else if ltb (length b) 8 || ltb size 8 || ltb (length b) size
    then none
    else (elim rest [ some bs ↦ some (first ∷ bs) | none ↦ none ])

unfoldable pub read_boxes : Bytes → Option (List Box)
read_boxes b = read_boxes_loop (suc (length b)) b

unfoldable pub boxes_bytes : List Box → Bytes
boxes_bytes [] = []
boxes_bytes (b ∷ bs) = box_bytes b ++ boxes_bytes bs

pub record IsBox (b : Box) : Type 0 where
  pub type_length : length b.type ≡ 4
  pub body_fits : 8 + length b.body < 2 ^ 32

read_boxes_loop-step :
    (n : ℕ) (b : Box) (rest : Bytes) (bs : List Box)
    → IsBox b
    → read_boxes_loop n rest ≡ some bs
    → read_boxes_loop (suc n) (box_bytes b ++ rest) ≡ some (b ∷ bs)
unfolding read_boxes_loop box_bytes
read_boxes_loop-step n b rest bs w e =
    let tail = b.type ++ b.body ++ rest in
    let whole = put_be32 (8 + length b.body) ++ tail in
    let assoc = append_assoc b.type b.body rest in
    let size : be32_at whole 0 ≡ 8 + length b.body = ground (arith, w.body_fits) in
    let body_size : 8 + length b.body - 8 ≡ length b.body = omega arith in
    let lens : length tail ≡ length b.type + length b.body + length rest =
      omega (arith, length-append (b.type ++ b.body) rest, length-append b.type b.body) in
    let some_left : (length whole == 0) ≡ false = ground arith in
    let fits : (ltb (length whole) 8
          || ltb (8 + length b.body) 8
          || ltb (length whole) (8 + length b.body))
        ≡ false =
      ground (arith, w.type_length, lens) in
    let take_type = take-append_left b.type (b.body ++ rest) 4 (sym w.type_length) in
    let drop_type = drop-append_left b.type (b.body ++ rest) 4 (sym w.type_length) in
    let take_body = take-append_left b.body rest (length b.body) refl in
    let drop_body = drop-append_left b.body rest (length b.body) refl in
    rw
      (
        some_left, size, fits, body_size, assoc, drop_type, drop_body, e, size, body_size, assoc,
        take_type, drop_type, take_body,
      )
      refl

read_boxes_loop_end : (n : ℕ) → read_boxes_loop (suc n) [] ≡ some []
unfolding read_boxes_loop
read_boxes_loop_end n = refl

length_rest :
    (b : Box) (rest : Bytes) (n : ℕ) → length (box_bytes b ++ rest) < suc n → length rest < n
unfolding box_bytes
length_rest b rest n h = omega (arith, length-append (b.type ++ b.body) rest)

read_boxes_loop-boxes_bytes :
    (n : ℕ) (bs : List Box)
    → All IsBox bs
    → length (boxes_bytes bs) < n
    → read_boxes_loop n (boxes_bytes bs) ≡ some bs
unfolding boxes_bytes
read_boxes_loop-boxes_bytes zero bs ws h = absurd (omega arith)
read_boxes_loop-boxes_bytes (suc n) [] ws h = read_boxes_loop_end n
read_boxes_loop-boxes_bytes (suc n) (b ∷ bs) (w, ws) h =
    let short : length (boxes_bytes bs) < n = length_rest b (boxes_bytes bs) n h in
    read_boxes_loop-step n b (boxes_bytes bs) bs w (read_boxes_loop-boxes_bytes n bs ws short)

-- A sequence of boxes is read back: their types are four bytes and their sizes fit.
pub read_boxes-boxes_bytes : (bs : List Box) → All IsBox bs → read_boxes (boxes_bytes bs) ≡ some bs
unfolding read_boxes
read_boxes-boxes_bytes bs ws =
    read_boxes_loop-boxes_bytes (suc (length (boxes_bytes bs))) bs ws (omega arith)
