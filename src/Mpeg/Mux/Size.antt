-- ===== src/Mpeg/Mux/Size.antt =====
-- The size of a packet (libmpeg/ts.go, libmpeg/pes.go).
use ggmpeg.Prelude.{
  ℕ, ◌+◌, ◌-◌, ◌≤◌, ◌≡◌, refl, inl, inr, Bool, true, false, none, some, ◌++◌, arith, if◌then◌else◌,
  Option-cases, length, length-append, drop, replicate, length-take, length-replicate, Bytes,
}
use ggmpeg.Mpeg.Pes.{Pes, marshal_pes, marshal_payload, marshal_after}
use ggmpeg.Mpeg.Ts.{
  AdaptationField, marshal_adaptation, pcr_bytes, Ts, ts_header, add_pcr, add_stuffing, new_ts,
}
use ggmpeg.Mpeg.Mux.{
  Psi, section, pes, marshal_psi, prepare, write_adaptation, pointer_field, mux, is_media,
}

marshal_payload_size : (p : Pes) (n : ℕ) → length (marshal_payload p n).1 ≤ n
unfolding marshal_payload
marshal_payload_size p n = ground (arith, length-take n (drop p.index p.payload))

length-marshal_psi : (psi : Psi) (n : ℕ) → length (marshal_psi psi n).bytes ≤ n
unfolding marshal_psi marshal_pes marshal_after
length-marshal_psi (section b) n = ground arith
length-marshal_psi (pes p) n =
    let left = drop p.header_index p.header_data in
    ground (
      arith,
      length-append left
          (marshal_payload (record p { header_index = length p.header_data }) (n - length left)).1,
      length-take n left,
      marshal_payload_size (record p { header_index = length p.header_data }) (n - length left),
      marshal_payload_size p n,
    )

length-marshal_adaptation :
    (af : AdaptationField) (b : Bytes)
    → marshal_adaptation af ≡ some b
    → length b ≡ af.adaptation_field_length + 1
unfolding marshal_adaptation pcr_bytes
length-marshal_adaptation af b e =
    let len = af.adaptation_field_length in
    ground (
      arith,
      length-replicate {A = ℕ} (len + 1 - 8) 0xff,
      length-replicate {A = ℕ} (len + 1 - 2) 0xff,
    )

-- A field fits behind the header, and for a table also in front of the pointer.
IsRoom : ℕ → AdaptationField → Type 0
IsRoom pid af = af.adaptation_field_length ≤ (if is_media pid then 183 else 7)

prepare-IsRoom :
    (key : Bool) (dts : ℕ) (psi : Psi) (ts : Ts) (af : AdaptationField)
    → ts.adaptation_field ≡ none
    → (prepare key dts psi ts).0.adaptation_field ≡ some af
    → IsRoom ts.pid af
unfolding prepare add_pcr add_stuffing IsRoom
prepare-IsRoom true dts psi ts af n e = ground arith
prepare-IsRoom false dts psi ts af n e = ground arith

pid-prepare : (key : Bool) (dts : ℕ) (psi : Psi) (ts : Ts) → (prepare key dts psi ts).0.pid ≡ ts.pid
unfolding prepare add_pcr add_stuffing
pid-prepare true dts psi ts = ground arith
pid-prepare false dts psi ts = ground arith

length-write_adaptation :
    (pid : ℕ) (ts : Ts)
    → ((af : AdaptationField) → ts.adaptation_field ≡ some af → IsRoom pid af)
    → length (write_adaptation ts).0 ≤ (if is_media pid then 184 else 8)
unfolding write_adaptation IsRoom
length-write_adaptation pid ts h = elim (Option-cases ts.adaptation_field) [
  | inl e ↦ ground arith
  | inr (af, e) ↦ elim (Option-cases (marshal_adaptation af)) [
    | inl e1 ↦ ground arith
    | inr (b, e1) ↦ ground (arith, h af e, length-marshal_adaptation af b e1)
  ]
]

length-pointer_field : (ts : Ts) → length (pointer_field ts) ≤ (if is_media ts.pid then 0 else 1)
unfolding pointer_field
length-pointer_field ts = ground arith

-- Mux writes 188 bytes, for a fresh packet of any PID and whatever it carries: also when a part of
-- it fails, and for a PES that is at its end.
pub length-mux :
    (key first : Bool) (dts pid : ℕ) (counters : ℕ → ℕ) (psi : Psi)
    → length (mux key dts psi (new_ts pid counters first).0).bytes ≡ 188
unfolding mux new_ts ts_header
length-mux key first dts pid counters psi =
    let ts = (new_ts pid counters first).0 in
    let ts1 = (prepare key dts psi ts).0 in
    let same : ts1.pid ≡ pid = pid-prepare key dts psi ts in
    let a = (write_adaptation ts1).0 in
    let alen : length a ≤ (if is_media pid then 184 else 8) =
      length-write_adaptation pid ts1 (λ af e. prepare-IsRoom key dts psi ts af refl e) in
    let plen : length (pointer_field ts1) ≤ (if is_media pid then 0 else 1) =
      rw same at (length-pointer_field ts1) in
    let room = 184 - length a - length (pointer_field ts1) in
    let w = marshal_psi (prepare key dts psi ts).1 room in
    let fill : Bytes = replicate (room - length w.bytes) 0xff in
    ground (
      arith,
      length-marshal_psi (prepare key dts psi ts).1 room,
      length-append a (pointer_field ts1 ++ (w.bytes ++ fill)),
      length-append (pointer_field ts1) (w.bytes ++ fill),
      length-append w.bytes fill,
      length-replicate {A = ℕ} (room - length w.bytes) 0xff,
    )
