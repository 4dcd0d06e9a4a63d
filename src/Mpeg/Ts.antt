-- ===== src/Mpeg/Ts.antt =====
-- libmpeg/ts.go: one transport packet, and its adaptation field as Mux builds it.
use ggmpeg.Prelude.{
  ℕ, ◌+◌, ◌-◌, ◌*◌, ◌/◌, ◌%◌, ◌^◌, Bool, ◌&&◌, ◌||◌, Option, none, some, [], ◌∷◌, ◌++◌, ltb, ◌==◌,
  if◌then◌else◌, length, replicate, Bytes,
}

abbrev pub ts_pat_pid : ℕ
ts_pat_pid = 0x0000

abbrev pub ts_pmt_pid : ℕ
ts_pmt_pid = 0x1001

abbrev pub ts_audio_pid : ℕ
ts_audio_pid = 0x0101

abbrev pub ts_video_pid : ℕ
ts_video_pid = 0x0100

-- The fields that Mux sets; the others stay 0.
pub record AdaptationField : Type 0 where
  pub adaptation_field_length : ℕ
  pub random_access_indicator : ℕ
  pub pcr_flag : ℕ
  pub program_clock_reference_base : ℕ

abbrev pub no_adaptation : AdaptationField
no_adaptation = record {
  adaptation_field_length = 0;
  random_access_indicator = 0;
  pcr_flag = 0;
  program_clock_reference_base = 0;
}

-- The field's bytes before the stuffing, and none for its two errors.
unfoldable pub pcr_bytes : AdaptationField → Bytes
pcr_bytes af =
    let base = af.program_clock_reference_base in
    if af.pcr_flag == 1
    then (base / 2 ^ 25 % 256)
      ∷ (base / 2 ^ 17 % 256)
      ∷ (base / 2 ^ 9 % 256)
      ∷ (base / 2 % 256)
      ∷ (base % 2 * 2 ^ 7 + 0x7e)
      ∷ 0
      ∷ []
    else []

unfoldable pub marshal_adaptation : AdaptationField → Option Bytes
marshal_adaptation af =
    let len = af.adaptation_field_length in
    let flags = af.random_access_indicator % 2 * 2 ^ 6 + af.pcr_flag % 2 * 2 ^ 4 in
    let b = len ∷ flags ∷ pcr_bytes af in
    if ltb len 1 || (af.pcr_flag == 1 && ltb len 7)
    then none
    else some (b ++ replicate (len + 1 - length b) 0xff)

-- The sync byte, the error, priority and scrambling bits and the payload pointer keep the constants
-- of NewTs.
pub record Ts : Type 0 where
  pub payload_unit_start_indicator : ℕ
  pub pid : ℕ
  pub adaptation_field_exist : ℕ
  pub continuity_counter : ℕ
  pub adaptation_field : Option AdaptationField

-- The counters by PID, a map that reads 0 where it has no entry.
unfoldable pub next_counter : ℕ → (ℕ → ℕ) → ℕ → ℕ
next_counter pid counters k = if k == pid then (counters pid + 1) % 0x10 else counters k

unfoldable pub new_ts : ℕ → (ℕ → ℕ) → Bool → Ts × (ℕ → ℕ)
new_ts pid counters first_ts = (
  record {
    payload_unit_start_indicator = if first_ts then 1 else 0;
    pid = pid;
    adaptation_field_exist = 1;
    continuity_counter = counters pid;
    adaptation_field = none;
  },
  next_counter pid counters,
)

unfoldable pub ts_header : Ts → Bytes
ts_header ts =
    0x47
    ∷ (ts.payload_unit_start_indicator % 2 * 2 ^ 6 + ts.pid / 2 ^ 8 % 2 ^ 5)
    ∷ (ts.pid % 256)
    ∷ (ts.adaptation_field_exist % 2 ^ 2 * 2 ^ 4 + ts.continuity_counter % 2 ^ 4)
    ∷ []

-- `|= 0x02`
abbrev pub set_exist : ℕ → ℕ
set_exist e = e % 2 + e / 2 ^ 2 * 2 ^ 2 + 2

unfoldable pub add_pcr : Bool → ℕ → Ts → Ts
add_pcr first_ts_of_key_frame dts ts =
    if first_ts_of_key_frame
    then record ts {
      adaptation_field_exist = set_exist ts.adaptation_field_exist;
      adaptation_field = some (record {
        adaptation_field_length = 7;
        random_access_indicator = 1;
        pcr_flag = 1;
        program_clock_reference_base = dts;
      });
    }
    else ts

-- The stuffing of a last packet: the length of the field that is there already, or of an empty one.
unfoldable pub add_stuffing : Bool → ℕ → Ts → Ts
add_stuffing first_ts_of_key_frame remain ts =
    let room = 188 - (if first_ts_of_key_frame then 12 else 4) in
    let af =
      if first_ts_of_key_frame
      then elim ts.adaptation_field [ some af ↦ af | none ↦ no_adaptation ]
      else no_adaptation in
    if ltb remain room
    then record ts {
      adaptation_field_exist = set_exist ts.adaptation_field_exist;
      adaptation_field = some (record af { adaptation_field_length = room - remain - 1 });
    }
    else record ts { adaptation_field = some af }
