-- ===== src/Dash/Sps.antt =====
-- libdash/dash.go: the dimensions of the picture in a sequence parameter set, of H.264
-- (`parseSPSDimensions`) and of H.265 (`parseHEVCSPSDimensions`). Zeros are returned where the parser
-- gives up.
use ggmpeg.Prelude.{
  ◌-◌, ℕ, zero, suc, ◌+◌, ◌*◌, ◌%◌, ◌^◌, Bool, false, not, ◌&&◌, ◌||◌, [], ◌∷◌, ltb, ◌==◌,
  if◌then◌else◌, length, drop, Bytes,
}
use ggmpeg.Dash.Bits.{new_bit_reader, Action, ◌>>=◌, ◌>>◌, give, read_uint, read_ue, read_se}
pub mod Emulation
pub mod Syntax
pub mod Size
pub mod HevcSize

-- Strip emulation-prevention bytes: 0x03 behind two zeros.
unfoldable pub strip_emulation : Bytes → Bytes
strip_emulation [] = []
strip_emulation (x ∷ []) = x ∷ []
strip_emulation (x ∷ y ∷ []) = x ∷ y ∷ []
strip_emulation (x ∷ y ∷ z ∷ rest) =
    let stripped = 0 ∷ 0 ∷ strip_emulation rest in
    let kept = x ∷ strip_emulation (y ∷ z ∷ rest) in
    if x == 0 && y == 0 && z == 0x03 then stripped else kept

unfoldable pub is_high_profile : ℕ → Bool
is_high_profile p =
    p == 100
    || p == 110
    || p == 122
    || p == 244
    || p == 44
    || p == 83
    || p == 86
    || p == 118
    || p == 128
    || p == 138
    || p == 139
    || p == 134
    || p == 135

-- The fields of the high profiles, and whether scaling lists follow.
unfoldable pub skip_high_profile : Action Bool
skip_high_profile = do
  chroma_format ← read_ue
  (if chroma_format == 3 then read_uint 1 else give 0)
  read_ue
  read_ue
  read_uint 1
  seq_scaling ← read_uint 1
  give (not (seq_scaling == 0))

unfoldable pub skip_se : ℕ → Action ℕ
skip_se zero = give 0
skip_se (suc n) = do read_se; skip_se n

unfoldable pub skip_order_count : ℕ → Action ℕ
skip_order_count order_type =
    if order_type == 0
    then (do lsb ← read_ue; give 0)
    else if order_type == 1
    then (do read_uint 1; read_se; read_se; n ← read_ue; skip_se n)
    else give 0

unfoldable pub read_order_count : Action ℕ
read_order_count = do order_type ← read_ue; skip_order_count order_type

-- uint16 of a product of uint32.
unfoldable pub width_of : ℕ → ℕ
width_of width_minus1 = (width_minus1 + 1) % 2 ^ 32 * 16 % 2 ^ 32 % 2 ^ 16

unfoldable pub height_of : ℕ → ℕ → ℕ
height_of height_minus1 frame_mbs_only =
    let units = (height_minus1 + 1) % 2 ^ 32 in
    (if frame_mbs_only == 0 then units * 2 % 2 ^ 32 else units) * 16 % 2 ^ 32 % 2 ^ 16

unfoldable pub read_size : Action (ℕ × ℕ)
read_size = do
  read_ue
  read_uint 1
  width ← read_ue
  height ← read_ue
  frame_mbs_only ← read_uint 1
  give (width_of width, height_of height frame_mbs_only)

unfoldable pub sps_tail : Action (ℕ × ℕ)
sps_tail = do read_ue; read_order_count; read_size

unfoldable pub sps_fields : Action (ℕ × ℕ)
sps_fields = do
  profile ← read_uint 8
  read_uint 16
  read_ue
  scaling ← if is_high_profile profile then skip_high_profile else give false
  if scaling then give (0, 0) else sps_tail

unfoldable pub parse_sps_dimensions : Bytes → ℕ × ℕ
parse_sps_dimensions sps =
    if ltb (length sps) 4
    then (0, 0)
    else (sps_fields (new_bit_reader (drop 1 (strip_emulation sps)))).0

unfoldable pub skip_bytes : ℕ → Action ℕ
skip_bytes zero = give 0
skip_bytes (suc n) = do read_uint 8; skip_bytes n

-- `for br.pos%8 != 0`, on fuel.
unfoldable pub align_loop : ℕ → Action ℕ
align_loop zero r = (0, r)
align_loop (suc fuel) r =
    let rest = align_loop fuel (read_uint 1 r).1 in if r.pos % 8 == 0 then (0, r) else rest

unfoldable pub skip_sub_layers : ℕ → Action ℕ
skip_sub_layers max_sub_layers =
    if ltb 1 max_sub_layers then (do read_uint (2 * (max_sub_layers - 1)); align_loop 8) else give 0

unfoldable pub hevc_size : Action (ℕ × ℕ)
hevc_size = do
  read_ue
  chroma_format ← read_ue
  (if chroma_format == 3 then read_uint 1 else give 0)
  width ← read_ue
  height ← read_ue
  give (width % 2 ^ 16, height % 2 ^ 16)

unfoldable pub hevc_sps_fields : Action (ℕ × ℕ)
hevc_sps_fields = do
  read_uint 4
  max_sub_layers ← read_uint 3
  read_uint 1
  skip_bytes 12
  skip_sub_layers max_sub_layers
  hevc_size

unfoldable pub parse_hevc_sps_dimensions : Bytes → ℕ × ℕ
parse_hevc_sps_dimensions sps =
    if ltb (length sps) 16
    then (0, 0)
    else (hevc_sps_fields (new_bit_reader (drop 2 (strip_emulation sps)))).0
