-- ===== src/Aac/Adts.antt =====
-- The ADTS header (libaac/aac.go) at a reader by ISO 14496-3.
use ggmpeg.Prelude.{
  ℕ, ◌+◌, ◌-◌, ◌*◌, ◌/◌, ◌%◌, ◌^◌, ◌≤◌, ◌<◌, ◌≡◌, refl, ◌&&◌, Option, none, some, [], ◌∷◌, arith,
  ◌==◌, if◌then◌else◌, length, Bytes, IsByte, All, at,
}
use ggmpeg.Aac.{AacHeader, parse_aac_header, adts}

-- What the header says: profile, sampling frequency index, channel configuration, frame length.
unfoldable pub read_adts : Bytes → Option (ℕ × ℕ × ℕ × ℕ)
read_adts b =
    if at b 0 == 0xff && at b 1 / 2 ^ 4 == 0xf
    then some (
      at b 2 / 2 ^ 6,
      at b 2 / 2 ^ 2 % 2 ^ 4,
      at b 2 % 2 * 2 ^ 2 + at b 3 / 2 ^ 6,
      at b 3 % 2 ^ 2 * 2 ^ 11 + at b 4 * 2 ^ 3 + at b 5 / 2 ^ 5,
    )
    else none

rate_lem :
    (config : Bytes) (ah : AacHeader)
    → parse_aac_header config ≡ some ah
    → All IsByte config
    → ah.sample_rate < 16
unfolding parse_aac_header
rate_lem (x ∷ y ∷ rest) ah e (hx, (hy, hr)) =
    let sum : x % 2 ^ 3 * 2 + y / 2 ^ 7 < 16 = omega (arith, hy) in ground (arith, sum)
rate_lem (x ∷ []) ah e hb = ground arith
rate_lem [] ah e hb = ground arith

-- The header of a configuration that Parse accepts, with an object type of 1 to 4 and less than four
-- channels, in front of a frame that fits into the 13 bits of the length, says what it should: the
-- object type less one, the rate, the channels, and the length of header and frame.
pub read_adts-adts :
    (config frame : Bytes) (ah : AacHeader)
    → parse_aac_header config ≡ some ah
    → All IsByte config
    → 0 < ah.object_type
    → ah.object_type ≤ 4
    → ah.channel < 4
    → length frame + 7 < 2 ^ 13
    → read_adts (adts ah frame)
      ≡ some (ah.object_type - 1, ah.sample_rate, ah.channel, length frame + 7)
unfolding read_adts adts parse_aac_header
read_adts-adts config frame ah e hb h0 h1 hc hd =
    let rate : ah.sample_rate < 16 = rate_lem config ah e hb in
    let wrap : (length frame + 7) % 2 ^ 16 ≡ length frame + 7 = omega arith in
    let kind : (ah.object_type + 255) % 256 ≡ ah.object_type - 1 = omega arith in
    let b2 = (ah.object_type - 1) * 2 ^ 6 % 256 + ah.sample_rate * 2 ^ 2 in
    let b3 = ah.channel * 2 ^ 6 % 256 + (length frame + 7) * 2 ^ 3 % 2 ^ 16 / 2 ^ 14 in
    let b4 = (length frame + 7) * 2 ^ 5 % 2 ^ 16 / 2 ^ 8 in
    let b5 = (length frame + 7) * 2 ^ 13 % 2 ^ 16 / 2 ^ 13 * 2 ^ 5 + 0x1f in
    let profile : b2 / 2 ^ 6 ≡ ah.object_type - 1 = omega arith in
    let index : b2 / 2 ^ 2 % 2 ^ 4 ≡ ah.sample_rate = omega arith in
    let channels : b2 % 2 * 2 ^ 2 + b3 / 2 ^ 6 ≡ ah.channel = omega arith in
    let len : b3 % 2 ^ 2 * 2 ^ 11 + b4 * 2 ^ 3 + b5 / 2 ^ 5 ≡ length frame + 7 = omega arith in
    rw (wrap, kind, profile, index, channels, len) refl
