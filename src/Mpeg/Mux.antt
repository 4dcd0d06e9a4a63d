-- ===== src/Mpeg/Mux.antt =====
-- TS.Mux of libmpeg/ts.go: one packet of a section or a PES.
use ggmpeg.Prelude.{
  ℕ, zero, suc, ◌+◌, ◌-◌, ◌*◌, ◌/◌, ◌%◌, ◌^◌, ◌≤◌, ◌<◌, ◌≡◌, refl, sym, ap, ◌∙◌, ◌≢◌, ◌↔◌, ◌⊎◌, inl,
  inr, Bool, true, false, not, ◌&&◌, ◌||◌, Option, none, some, List, [], ◌∷◌, ◌++◌, append-nil,
  append_assoc, arith, ltb, leb, ◌==◌, if◌then◌else◌, ltb→lt, lt→ltb, leb→le, le→leb, leb-false→lt,
  ltb-false→le, ==_iff, tests, Bool-cases, Option-cases, length, get_elem?, set, length-append,
  get_or, take, drop, replicate, take-append-drop, length-take, length-drop, length-replicate,
  take-append_left, drop-append_left, take_whole, drop_whole, drop-append_past, take-append_past,
  Bytes, IsByte, All, All-append, at, has_bit, put_be16, put_be24, put_be32, be16_at, be24_at,
  be32_at,
}
use ggmpeg.Mpeg.Pes.{Pes, remain_pes, marshal_pes}
use ggmpeg.Mpeg.Ts.{
  ts_pat_pid, ts_pmt_pid, ts_audio_pid, ts_video_pid, AdaptationField, marshal_adaptation,
  pcr_bytes, Ts, ts_header, add_pcr, add_stuffing, no_adaptation,
}
pub mod Size

-- What a packet carries: a table's section, written whole, or a PES.
pub data Psi : Type 0 where
  section : Bytes → Psi
  pes : Pes → Psi

unfoldable pub remain_psi : Psi → Psi × ℕ
remain_psi (section b) = (section b, length b)
remain_psi (pes p) = (let (p1, n) = remain_pes p in (pes p1, n))

-- What Marshal writes: the state after it, the bytes, whether that was all, and whether it fails.
pub record Written : Type 0 where
  pub psi : Psi
  pub bytes : Bytes
  pub finish : Bool
  pub failed : Bool

unfoldable pub marshal_psi : Psi → ℕ → Written
marshal_psi (section b) writable =
    if ltb writable (length b)
    then record { psi = section b; bytes = []; finish = false; failed = true }
    else record { psi = section b; bytes = b; finish = true; failed = false }
marshal_psi (pes p) writable = elim (marshal_pes p writable) [
  | some (p1, b, finish) ↦ record { psi = pes p1; bytes = b; finish = finish; failed = false }
  | none ↦ record { psi = pes p; bytes = []; finish = false; failed = true }
]

abbrev pub is_media : ℕ → Bool
is_media pid = pid == ts_audio_pid || pid == ts_video_pid

-- The adaptation field for this packet, and what is left of the PES, for audio and video.
unfoldable pub prepare : Bool → ℕ → Psi → Ts → Ts × Psi
prepare first_ts_of_key_frame dts psi ts =
    let ts1 = add_pcr first_ts_of_key_frame dts ts in
    let (psi1, left) = remain_psi psi in
    if is_media ts.pid then (add_stuffing first_ts_of_key_frame left ts1, psi1) else (ts1, psi)

-- The adaptation field's bytes, none of them on an error, and whether there is one.
unfoldable pub write_adaptation : Ts → Bytes × Bool
write_adaptation ts = elim ts.adaptation_field [
  | some af ↦
      if ts.adaptation_field_exist / 2 % 2 == 1
      then (elim (marshal_adaptation af) [ some b ↦ (b, false) | none ↦ ([], true) ])
      else ([], false)
  | none ↦ ([], false)
]

-- The pointer in front of a section.
unfoldable pub pointer_field : Ts → Bytes
pointer_field ts =
    if (ts.pid == ts_pat_pid || ts.pid == ts_pmt_pid) && ts.payload_unit_start_indicator == 1
    then 0 ∷ []
    else []

-- The packet, the state of what it carries, whether that is finished, and whether an error came up:
-- the bytes are written all the same.
unfoldable pub mux : Bool → ℕ → Psi → Ts → Written
mux first_ts_of_key_frame dts psi ts =
    let (ts1, psi1) = prepare first_ts_of_key_frame dts psi ts in
    let (adaptation, af_failed) = write_adaptation ts1 in
    let pointer = pointer_field ts1 in
    let writable = 184 - length adaptation - length pointer in
    let w = marshal_psi psi1 writable in
    let fill = replicate (writable - length w.bytes) 0xff in
    record {
      psi = w.psi;
      bytes = ts_header ts1 ++ (adaptation ++ (pointer ++ (w.bytes ++ fill)));
      finish = w.finish;
      failed = af_failed || w.failed;
    }
