-- ===== src/Aac.antt =====
-- libaac/aac.go: the AudioSpecificConfig, and the ADTS header that is made of it.
use ggmpeg.Prelude.{
  ℕ, zero, suc, ◌+◌, ◌-◌, ◌*◌, ◌/◌, ◌%◌, ◌^◌, ◌≤◌, ◌<◌, ◌≡◌, refl, sym, ap, ◌∙◌, ◌≢◌, ◌↔◌, ◌⊎◌, inl,
  inr, Bool, true, false, not, ◌&&◌, ◌||◌, Option, none, some, List, [], ◌∷◌, ◌++◌, append-nil,
  append_assoc, arith, ltb, leb, ◌==◌, if◌then◌else◌, ltb→lt, lt→ltb, leb→le, le→leb, leb-false→lt,
  ltb-false→le, ==_iff, tests, Bool-cases, Option-cases, length, get_elem?, set, length-append,
  get_or, take, drop, replicate, take-append-drop, length-take, length-drop, length-replicate,
  take-append_left, drop-append_left, take_whole, drop_whole, drop-append_past, take-append_past,
  Bytes, IsByte, All, All-append, at, has_bit, put_be16, put_be24, put_be32, be16_at, be24_at,
  be32_at,
}
pub mod Adts
mod Tests

pub record AacHeader : Type 0 where
  pub object_type : ℕ
  pub sample_rate : ℕ
  pub channel : ℕ

-- None is the error.
unfoldable pub parse_aac_header : Bytes → Option AacHeader
parse_aac_header frame =
    if ltb (length frame) 2
    then none
    else some (record {
      object_type = at frame 0 / 2 ^ 3;
      sample_rate = at frame 0 % 2 ^ 3 * 2 + at frame 1 / 2 ^ 7;
      channel = at frame 1 / 2 ^ 3 % 2 ^ 4;
    })

-- The object type is a uint8, and so is `object_type - 1`. The sample rate is one of 16, so the two
-- parts of the third byte share no bit.
unfoldable pub adts : AacHeader → Bytes → Bytes
adts ah frame =
    let frame_len = (length frame + 7) % 2 ^ 16 in
    0xff
    ∷ 0xf1
    ∷ ((ah.object_type + 255) % 256 * 2 ^ 6 % 256 + ah.sample_rate * 2 ^ 2)
    ∷ (ah.channel * 2 ^ 6 % 256 + frame_len * 2 ^ 3 % 2 ^ 16 / 2 ^ 14)
    ∷ (frame_len * 2 ^ 5 % 2 ^ 16 / 2 ^ 8)
    ∷ (frame_len * 2 ^ 13 % 2 ^ 16 / 2 ^ 13 * 2 ^ 5 + 0x1f)
    ∷ 0xfc
    ∷ []
