-- ===== src/Dash/Sps/HevcSize.antt =====
-- The parser of libdash/dash.go at parameter sets by H.265.
use ggmpeg.Prelude.{
  ℕ, ◌%◌, ◌^◌, ◌≤◌, ◌≡◌, false, List, [], ◌∷◌, ◌++◌, arith, ltb, ◌==◌, if◌then◌else◌, length, Bytes,
  IsByte, All,
}
use mathlib.Core.Path.{subst}
use ggmpeg.Dash.Bits.{new_bit_reader}
use ggmpeg.Dash.Bits.Codes.{bits_of, u, ue}
use ggmpeg.Dash.Bits.Read.{
  Reads, >>=-Reads, >>-Reads, then_give-Reads, give-Reads, read_ue-ue, read_uint-u, rest_bits,
}
use ggmpeg.Dash.Sps.{
  skip_bytes, skip_sub_layers, hevc_size, hevc_sps_fields, parse_hevc_sps_dimensions,
}
use ggmpeg.Dash.Sps.Syntax.{HevcSps, IsHevcSps, bytes_bits, hevc_sps_bits}
use ggmpeg.Dash.Sps.Size.{flag-Reads, optional-Reads}
use ggmpeg.Dash.Sps.Emulation.{prevent, strip_emulation-prevent}

skip_bytes-Reads : (b : Bytes) → All IsByte b → Reads (skip_bytes (length b)) (bytes_bits b) 0
unfolding skip_bytes bytes_bits
skip_bytes-Reads [] h = give-Reads 0
skip_bytes-Reads (x ∷ xs) h =
    >>-Reads (read_uint-u 8 x h.0 (omega (arith, h.0))) (skip_bytes-Reads xs h.1)

tier_lem : (s : HevcSps) → IsHevcSps s → Reads (skip_bytes 12) (bytes_bits s.profile_tier_level) 0
tier_lem s v =
    subst (λ (n : ℕ). Reads (skip_bytes n) (bytes_bits s.profile_tier_level) 0) v.tier_length
      (skip_bytes-Reads s.profile_tier_level v.tier_bytes)

narrow_lem :
    (s : HevcSps)
    → IsHevcSps s
    → ◌≡◌ {A = ℕ × ℕ} (s.width % 2 ^ 16, s.height % 2 ^ 16) (s.width, s.height)
narrow_lem s v = ground arith

hevc_size-Reads :
    (s : HevcSps)
    → IsHevcSps s
    → Reads hevc_size
        (ue s.sps_id
          ++ (ue s.chroma
              ++ ((if s.chroma == 3 then u 1 s.plane else []) ++ (ue s.width ++ ue s.height))))
        (s.width, s.height)
unfolding hevc_size
hevc_size-Reads s v =
    subst
      (λ (p : ℕ × ℕ).
        Reads hevc_size
          (ue s.sps_id
            ++ (ue s.chroma
                ++ ((if s.chroma == 3 then u 1 s.plane else []) ++ (ue s.width ++ ue s.height))))
          p)
      (narrow_lem s v)
      (>>-Reads (read_ue-ue s.sps_id v.sps_id_code) (
        >>=-Reads _ (read_ue-ue s.chroma v.chroma_format_code) (
          optional-Reads (s.chroma == 3) s.plane v.plane_bit (
            >>=-Reads _ (read_ue-ue s.width (omega arith)) (
              then_give-Reads (λ (h : ℕ). (s.width % 2 ^ 16, h % 2 ^ 16))
                (read_ue-ue s.height (omega arith)))))))

hevc_sps_fields-Reads :
    (s : HevcSps) → IsHevcSps s → Reads hevc_sps_fields (hevc_sps_bits s) (s.width, s.height)
unfolding hevc_sps_fields hevc_sps_bits skip_sub_layers
hevc_sps_fields-Reads s v = >>-Reads (read_uint-u 4 s.vps_id v.vps_width (omega arith)) (
    >>=-Reads _ (read_uint-u 3 0 (omega arith) (omega arith)) (
      >>-Reads (flag-Reads s.nesting v.nesting_flag)
        (>>-Reads (tier_lem s v) (>>-Reads (give-Reads 0) (hevc_size-Reads s v)))))

-- The dimensions of a parameter set of H.265 with one temporal layer: a NAL unit whose bytes behind
-- the two of the header hold the syntax of clause 7.3.2.2 and then anything, with emulation
-- prevention, gives its width and height, if the fields have their widths and the unit is of 16 bytes at least.
pub parse_hevc_sps_dimensions-hevc_sps_bits :
    (s : HevcSps) (h0 h1 : ℕ) (rbsp : Bytes) (tail : List ℕ)
    → IsHevcSps s
    → bits_of rbsp ≡ hevc_sps_bits s ++ tail
    → 16 ≤ length (prevent 0 (h0 ∷ h1 ∷ rbsp))
    → parse_hevc_sps_dimensions (prevent 0 (h0 ∷ h1 ∷ rbsp)) ≡ (s.width, s.height)
unfolding parse_hevc_sps_dimensions rest_bits
parse_hevc_sps_dimensions-hevc_sps_bits s h0 h1 rbsp tail v hb hl =
    let long : ltb (length (prevent 0 (h0 ∷ h1 ∷ rbsp))) 16 ≡ false = ground arith in
    let size = (hevc_sps_fields-Reads s v).run (new_bit_reader rbsp) tail hb in
    rw (long, strip_emulation-prevent (h0 ∷ h1 ∷ rbsp)) (size.0)
