-- ===== src/Dash/Sps/Syntax.antt =====
-- The syntax of sequence parameter sets up to the dimensions: H.264 clause 7.3.2.1.1, and H.265
-- clause 7.3.2.2 for a stream of one temporal layer. The signed fields that no one reads stand by
-- their code numbers.
use ggmpeg.Prelude.{
  ℕ, ◌+◌, ◌^◌, ◌<◌, ◌≡◌, Bool, false, ◌||◌, List, [], ◌∷◌, ◌++◌, ◌==◌, if◌then◌else◌, length, Bytes,
  IsByte, All,
}
use ggmpeg.Dash.Bits.Codes.{u, ue}

-- pic_order_cnt_type with its fields.
pub data OrderCount : Type 0 where
  lsb : ℕ → OrderCount
  cycle : ℕ → ℕ → ℕ → List ℕ → OrderCount
  plain : OrderCount

pub record Sps : Type 0 where
  pub profile : ℕ
  pub constraints_level : ℕ
  pub id : ℕ
  pub chroma_format : ℕ
  pub colour_plane : ℕ
  pub depth_luma : ℕ
  pub depth_chroma : ℕ
  pub bypass : ℕ
  pub log2_max_frame_num : ℕ
  pub order_count : OrderCount
  pub ref_frames : ℕ
  pub gaps : ℕ
  pub width_minus1 : ℕ
  pub height_minus1 : ℕ
  pub frame_mbs_only : ℕ

unfoldable pub codes_bits : List ℕ → List ℕ
codes_bits [] = []
codes_bits (c ∷ cs) = ue c ++ codes_bits cs

unfoldable pub order_bits : OrderCount → List ℕ
order_bits (lsb n) = ue 0 ++ ue n
order_bits (cycle flag offset field offsets) =
    ue 1 ++ (u 1 flag ++ (ue offset ++ (ue field ++ (ue (length offsets) ++ codes_bits offsets))))
order_bits plain = ue 2 ++ []

-- The fields of the high profiles, with no scaling lists.
unfoldable pub high_bits : Sps → List ℕ
high_bits s =
    ue s.chroma_format
    ++ ((if s.chroma_format == 3 then u 1 s.colour_plane else [])
        ++ (ue s.depth_luma ++ (ue s.depth_chroma ++ (u 1 s.bypass ++ u 1 0))))

unfoldable pub size_bits : Sps → List ℕ
size_bits s =
    ue s.ref_frames
    ++ (u 1 s.gaps ++ (ue s.width_minus1 ++ (ue s.height_minus1 ++ u 1 s.frame_mbs_only)))

-- The profiles whose parameter sets have those fields.
abbrev pub high_profiles : List ℕ
high_profiles = 100 ∷ 110 ∷ 122 ∷ 244 ∷ 44 ∷ 83 ∷ 86 ∷ 118 ∷ 128 ∷ 138 ∷ 139 ∷ 134 ∷ 135 ∷ []

unfoldable pub is_one_of : ℕ → List ℕ → Bool
is_one_of p [] = false
is_one_of p (x ∷ []) = p == x
is_one_of p (x ∷ y ∷ ys) = p == x || is_one_of p (y ∷ ys)

unfoldable pub sps_bits : Sps → List ℕ
sps_bits s =
    u 8 s.profile
    ++ (u 16 s.constraints_level
        ++ (ue s.id
            ++ ((if is_one_of s.profile high_profiles then high_bits s else [])
                ++ (ue s.log2_max_frame_num ++ (order_bits s.order_count ++ size_bits s)))))

-- Numbers that ue(v) has a code of at most 63 bits for.
abbrev pub IsCode : ℕ → Type 0
IsCode v = v + 1 < 2 ^ 32

abbrev pub IsOrder : OrderCount → Type 0
IsOrder (lsb n) = IsCode n
IsOrder (cycle flag offset field offsets) =
    (flag < 2) × IsCode offset × IsCode field × IsCode (length offsets) × All IsCode offsets
IsOrder plain = Unit

-- The fields have their widths.
pub record IsSps (s : Sps) : Type 0 where
  pub profile_width : s.profile < 2 ^ 8
  pub level_width : s.constraints_level < 2 ^ 16
  pub id_code : IsCode s.id
  pub chroma_code : IsCode s.chroma_format
  pub plane_flag : s.colour_plane < 2
  pub luma_code : IsCode s.depth_luma
  pub chroma_depth_code : IsCode s.depth_chroma
  pub bypass_flag : s.bypass < 2
  pub frame_num_code : IsCode s.log2_max_frame_num
  pub order : IsOrder s.order_count
  pub refs_code : IsCode s.ref_frames
  pub gaps_flag : s.gaps < 2
  pub width_code : IsCode s.width_minus1
  pub height_code : IsCode s.height_minus1
  pub mbs_flag : s.frame_mbs_only < 2

-- A parameter set of H.265; the 12 bytes are the profile, tier and level.
pub record HevcSps : Type 0 where
  pub vps_id : ℕ
  pub nesting : ℕ
  pub profile_tier_level : Bytes
  pub sps_id : ℕ
  pub chroma : ℕ
  pub plane : ℕ
  pub width : ℕ
  pub height : ℕ

unfoldable pub bytes_bits : Bytes → List ℕ
bytes_bits [] = []
bytes_bits (x ∷ xs) = u 8 x ++ bytes_bits xs

unfoldable pub hevc_sps_bits : HevcSps → List ℕ
hevc_sps_bits s =
    u 4 s.vps_id
    ++ (u 3 0
        ++ (u 1 s.nesting
            ++ (bytes_bits s.profile_tier_level
                ++ (ue s.sps_id
                    ++ (ue s.chroma
                        ++ ((if s.chroma == 3 then u 1 s.plane else [])
                            ++ (ue s.width ++ ue s.height)))))))

pub record IsHevcSps (s : HevcSps) : Type 0 where
  pub vps_width : s.vps_id < 2 ^ 4
  pub nesting_flag : s.nesting < 2
  pub tier_length : length s.profile_tier_level ≡ 12
  pub tier_bytes : All IsByte s.profile_tier_level
  pub sps_id_code : IsCode s.sps_id
  pub chroma_format_code : IsCode s.chroma
  pub plane_bit : s.plane < 2
  pub width_bound : s.width < 2 ^ 16
  pub height_bound : s.height < 2 ^ 16
