-- ===== src/Dash/Sps/Size.antt =====
-- The parsers of libdash/dash.go at parameter sets by the standards.
use ggmpeg.Prelude.{
  ℕ, zero, suc, ◌+◌, ◌-◌, ◌*◌, ◌^◌, ◌≤◌, ◌<◌, ◌≡◌, refl, ◌∙◌, Bool, true, false, not, ◌||◌, List,
  [], ◌∷◌, ◌++◌, arith, ltb, ◌==◌, if◌then◌else◌, length, Bytes, All,
}
use ggmpeg.Dash.Bits.{se_value, new_bit_reader, Action, ◌>>◌, give, read_uint, read_se}
use ggmpeg.Dash.Bits.Codes.{bits_of, u, ue}
use ggmpeg.Dash.Bits.Read.{
  Reads, >>=-Reads, >>-Reads, then_give-Reads, give-Reads, read_ue-ue, read_uint-u, rest_bits,
}
use ggmpeg.Dash.Sps.{
  is_high_profile, skip_high_profile, skip_se, skip_order_count, read_order_count, width_of,
  height_of, read_size, sps_tail, sps_fields, parse_sps_dimensions,
}
use ggmpeg.Dash.Sps.Syntax.{
  high_profiles, is_one_of, OrderCount, lsb, cycle, plain, Sps, IsSps, IsCode, IsOrder, codes_bits,
  order_bits, high_bits, size_bits, sps_bits,
}
use ggmpeg.Dash.Sps.Emulation.{prevent, strip_emulation-prevent}

pub flag-Reads : (x : ℕ) → x < 2 → Reads (read_uint 1) (u 1 x) x
flag-Reads x h = read_uint-u 1 x (omega arith) (omega arith)

-- A field that is there under a condition; nothing looks at its value.
pub optional-Reads :
    {A : Type 0} {k : Action A} (b : Bool) (x : ℕ) {cs : List ℕ} {a : A}
    → x < 2
    → Reads k cs a
    → Reads ((if b then read_uint 1 else give 0) >> k) ((if b then u 1 x else []) ++ cs) a
optional-Reads true x h hk = >>-Reads (flag-Reads x h) hk
optional-Reads false x h hk = >>-Reads (give-Reads 0) hk

skip_high_profile-high_bits : (s : Sps) → IsSps s → Reads skip_high_profile (high_bits s) false
unfolding skip_high_profile high_bits
skip_high_profile-high_bits s v = >>=-Reads _ (read_ue-ue s.chroma_format v.chroma_code) (
    optional-Reads (s.chroma_format == 3) s.colour_plane v.plane_flag (
      >>-Reads (read_ue-ue s.depth_luma v.luma_code) (
        >>-Reads (read_ue-ue s.depth_chroma v.chroma_depth_code) (
          >>-Reads (flag-Reads s.bypass v.bypass_flag)
            (then_give-Reads (λ (x : ℕ). not (x == 0)) (flag-Reads 0 (omega arith)))))))

read_se-Reads : (c : ℕ) → IsCode c → Reads read_se (ue c) (se_value c)
unfolding read_se
read_se-Reads c h = then_give-Reads se_value (read_ue-ue c h)

skip_se-codes :
    (codes : List ℕ) → All IsCode codes → Reads (skip_se (length codes)) (codes_bits codes) 0
unfolding skip_se codes_bits
skip_se-codes [] h = give-Reads 0
skip_se-codes (c ∷ cs) h = >>-Reads (read_se-Reads c h.0) (skip_se-codes cs h.1)

read_size-size_bits :
    (s : Sps)
    → IsSps s
    → Reads read_size
        (size_bits s)
        (width_of s.width_minus1, height_of s.height_minus1 s.frame_mbs_only)
unfolding read_size size_bits
read_size-size_bits s v = >>-Reads (read_ue-ue s.ref_frames v.refs_code) (
    >>-Reads (flag-Reads s.gaps v.gaps_flag) (
      >>=-Reads _ (read_ue-ue s.width_minus1 v.width_code) (
        >>=-Reads _ (read_ue-ue s.height_minus1 v.height_code) (
          then_give-Reads (λ (f : ℕ). (width_of s.width_minus1, height_of s.height_minus1 f))
            (flag-Reads s.frame_mbs_only v.mbs_flag)))))

read_order_count-order_bits : (o : OrderCount) → IsOrder o → Reads read_order_count (order_bits o) 0
unfolding read_order_count skip_order_count order_bits
read_order_count-order_bits (lsb n) v =
    >>=-Reads _ (read_ue-ue 0 (omega arith)) (then_give-Reads (λ (x : ℕ). 0) (read_ue-ue n v))
read_order_count-order_bits (cycle flag offset field offsets) (vf, vo, vd, vl, vs) =
    >>=-Reads _ (read_ue-ue 1 (omega arith)) (
      >>-Reads (flag-Reads flag vf) (
        >>-Reads (read_se-Reads offset vo) (
          >>-Reads (read_se-Reads field vd)
            (>>=-Reads _ (read_ue-ue (length offsets) vl) (skip_se-codes offsets vs)))))
read_order_count-order_bits plain v = >>=-Reads _ (read_ue-ue 2 (omega arith)) (give-Reads 0)

high-Reads :
    (s : Sps) (b : Bool)
    → IsSps s
    → Reads (if b then skip_high_profile else give false) (if b then high_bits s else []) false
high-Reads s true v = skip_high_profile-high_bits s v
high-Reads s false v = give-Reads false

or_assoc : (a b c : Bool) → (a || b) || c ≡ a || (b || c)
or_assoc true b c = refl
or_assoc false b c = refl

-- The source's chain of tests is the standard's list.
is_high_profile_lem : (p : ℕ) → is_high_profile p ≡ is_one_of p high_profiles
unfolding is_high_profile is_one_of
is_high_profile_lem p = simp (or_assoc)

profile-Reads :
    (s : Sps)
    → IsSps s
    → Reads
        (if is_high_profile s.profile then skip_high_profile else give false)
        (if is_one_of s.profile high_profiles then high_bits s else [])
        false
profile-Reads s v =
    rw (is_high_profile_lem s.profile) (high-Reads s (is_one_of s.profile high_profiles) v)

sps_fields-sps_bits :
    (s : Sps)
    → IsSps s
    → Reads sps_fields
        (sps_bits s)
        (width_of s.width_minus1, height_of s.height_minus1 s.frame_mbs_only)
unfolding sps_fields sps_tail sps_bits
sps_fields-sps_bits s v = >>=-Reads _ (read_uint-u 8 s.profile v.profile_width (omega arith)) (
    >>-Reads (read_uint-u 16 s.constraints_level v.level_width (omega arith)) (
      >>-Reads (read_ue-ue s.id v.id_code) (
        >>=-Reads _ (profile-Reads s v) (
          >>-Reads (read_ue-ue s.log2_max_frame_num v.frame_num_code) (
            >>-Reads (read_order_count-order_bits s.order_count v.order)
              (read_size-size_bits s v))))))

height_lem :
    (height_minus1 frame_mbs_only : ℕ)
    → frame_mbs_only < 2
    → (height_minus1 + 1) * (2 - frame_mbs_only) * 16 < 2 ^ 16
    → height_of height_minus1 frame_mbs_only ≡ (height_minus1 + 1) * (2 - frame_mbs_only) * 16
unfolding height_of
height_lem h zero hf hx = omega arith
height_lem h (suc zero) hf hx = omega arith
height_lem h (suc (suc f)) hf hx = absurd (omega arith)

-- The dimensions of a parameter set: a NAL unit whose bytes behind the header hold the syntax of
-- H.264 clause 7.3.2.1.1 and then anything, with emulation prevention, gives the width and height
-- that its fields stand for, in pixels. There are no scaling lists, the fields have their widths,
-- the bytes of the unit are four at least, and width and height fit 16 bits.
pub parse_sps_dimensions-sps_bits :
    (s : Sps) (header : ℕ) (rbsp : Bytes) (tail : List ℕ)
    → IsSps s
    → bits_of rbsp ≡ sps_bits s ++ tail
    → 4 ≤ length (prevent 0 (header ∷ rbsp))
    → (s.width_minus1 + 1) * 16 < 2 ^ 16
    → (s.height_minus1 + 1) * (2 - s.frame_mbs_only) * 16 < 2 ^ 16
    → parse_sps_dimensions (prevent 0 (header ∷ rbsp))
      ≡ ((s.width_minus1 + 1) * 16, (s.height_minus1 + 1) * (2 - s.frame_mbs_only) * 16)
unfolding parse_sps_dimensions width_of rest_bits
parse_sps_dimensions-sps_bits s header rbsp tail v hb hl hw hx =
    let long : ltb (length (prevent 0 (header ∷ rbsp))) 4 ≡ false = ground arith in
    let size = (sps_fields-sps_bits s v).run (new_bit_reader rbsp) tail hb in
    let height = height_lem s.height_minus1 s.frame_mbs_only v.mbs_flag hx in
    let width : width_of s.width_minus1 ≡ (s.width_minus1 + 1) * 16 = omega arith in
    rw (long, strip_emulation-prevent (header ∷ rbsp)) (size.0 ∙ rw (width, height) refl)
