-- ===== src/Mpeg/Frame/Packet.antt =====
-- What one packet of a PES holds (libmpeg/ts.go, libmpeg/pes.go), and where the demultiplexer finds it
-- (libsrt/tsdemux.go).
use ggmpeg.Prelude.{
  ℕ, ◌+◌, ◌-◌, ◌*◌, ◌/◌, ◌%◌, ◌^◌, ◌≤◌, ◌<◌, ◌≡◌, refl, sym, ap, ◌∙◌, Bool, true, false, some, [],
  ◌∷◌, ◌++◌, append-nil, arith, ltb, if◌then◌else◌, length, drop, replicate, length-replicate,
  drop-append_left, drop-append_past, Bytes,
}
use ggmpeg.Mpeg.Pes.{Pes, remain_pes, marshal_pes}
use ggmpeg.Mpeg.Ts.{
  ts_video_pid, AdaptationField, marshal_adaptation, pcr_bytes, Ts, ts_header, add_pcr,
  add_stuffing, no_adaptation, new_ts,
}
use ggmpeg.Mpeg.Mux.{
  Psi, pes, remain_psi, Written, marshal_psi, prepare, write_adaptation, pointer_field, mux,
}
use ggmpeg.Srt.Demux.{payload_of}

-- A packet of the video PID: the header, an adaptation field or none, and a chunk.
abbrev pub packet : Bool → ℕ → ℕ → Bytes → Bytes
packet first exist counter rest =
    0x47
    ∷ ((if first then 1 else 0) % 2 * 2 ^ 6 + 1)
    ∷ 0
    ∷ (exist % 2 ^ 2 * 2 ^ 4 + counter % 2 ^ 4)
    ∷ rest

pub payload_of-plain :
    (first : Bool) (counter : ℕ) (chunk : Bytes)
    → payload_of (packet first 1 counter chunk) ≡ some chunk
unfolding payload_of
payload_of-plain first counter chunk =
    let control : (16 + counter % 2 ^ 4) / 2 ^ 4 % 2 ^ 2 ≡ 1 = omega arith in rw control refl

pub payload_of-adapted :
    (first : Bool) (counter len : ℕ) (a chunk : Bytes)
    → length a ≡ len
    → len ≤ 183
    → payload_of (packet first 3 counter ((len ∷ a) ++ chunk)) ≡ some chunk
unfolding payload_of
payload_of-adapted first counter len a chunk e h =
    let control : (48 + counter % 2 ^ 4) / 2 ^ 4 % 2 ^ 2 ≡ 3 = omega arith in
    let inside : ltb 188 (4 + (1 + len)) ≡ false = ground arith in
    let front : Bytes =
      0x47 ∷ ((if first then 1 else 0) % 2 * 2 ^ 6 + 1) ∷ 0 ∷ (48 + counter % 2 ^ 4) ∷ len ∷ [] in
    let skip : drop (4 + (1 + len)) (front ++ (a ++ chunk)) ≡ drop len (a ++ chunk) =
      drop-append_past front (a ++ chunk) (4 + (1 + len)) len (omega arith) in
    let past : drop len (a ++ chunk) ≡ chunk = drop-append_left a chunk len (sym e) in
    rw (control, inside) (ap some (skip ∙ past))

-- A packet from its parts.
mux_parts :
    (key : Bool) (dts : ℕ) (psi : Psi) (ts ts1 : Ts) (psi1 : Psi) (a : Bytes) (w : Written)
    → prepare key dts psi ts ≡ (ts1, psi1)
    → pointer_field ts1 ≡ []
    → write_adaptation ts1 ≡ (a, false)
    → marshal_psi psi1 (184 - length a) ≡ w
    → length w.bytes ≡ 184 - length a
    → mux key dts psi ts ≡ record w { bytes = ts_header ts1 ++ (a ++ w.bytes) }
unfolding mux
mux_parts key dts psi ts ts1 psi1 a w hp hv ha hm hl =
    let no_pointer : 184 - length a - 0 ≡ 184 - length a = omega arith in
    let no_fill : 184 - length a - (184 - length a) ≡ 0 = omega arith in
    rw (hp, hv, ha, no_pointer, hm, hl, no_fill, append-nil) refl

-- What the PES leaves to the packet.
marshal_psi-pes :
    (p p1 : Pes) (n : ℕ) (chunk : Bytes) (fin : Bool)
    → marshal_pes p n ≡ some (p1, chunk, fin)
    → marshal_psi (pes p) n ≡ record { psi = pes p1; bytes = chunk; finish = fin; failed = false }
unfolding marshal_psi
marshal_psi-pes p p1 n chunk fin e = rw (e, marshal_psi) refl

-- A packet without a field, which the chunk fills.
pub mux-plain :
    (first fin : Bool) (counters : ℕ → ℕ) (dts left : ℕ) (p p1 p2 : Pes) (chunk : Bytes)
    → remain_pes p ≡ (p1, left)
    → 184 ≤ left
    → marshal_pes p1 184 ≡ some (p2, chunk, fin)
    → length chunk ≡ 184
    → mux false dts (pes p) (new_ts ts_video_pid counters first).0 ≡ record {
      psi = pes p2;
      bytes = packet first 1 (counters ts_video_pid) chunk;
      finish = fin;
      failed = false;
    }
unfolding prepare add_pcr add_stuffing new_ts remain_psi write_adaptation ts_header pointer_field
mux-plain first fin counters dts left p p1 p2 chunk hr hl hm hc =
    let ts : Ts = (new_ts ts_video_pid counters first).0 in
    let ts1 : Ts = record ts { adaptation_field = some no_adaptation } in
    let wide : ltb left 184 ≡ false = ground arith in
    let ready : prepare false dts (pes p) ts ≡ (ts1, pes p1) = rw (hr, wide) refl in
    mux_parts false dts (pes p) ts ts1 (pes p1) []
      (record { psi = pes p2; bytes = chunk; finish = fin; failed = false }) ready refl refl
      (marshal_psi-pes p1 p2 184 chunk fin hm) hc

-- The bytes of an empty field, behind its length.
abbrev pub stuffing : ℕ → Bytes
stuffing left = 0 ∷ replicate (182 - left) 0xff

marshal_adaptation-stuffing :
    (left : ℕ)
    → left < 183
    → marshal_adaptation (record no_adaptation { adaptation_field_length = 183 - left })
      ≡ some ((183 - left) ∷ stuffing left)
unfolding marshal_adaptation pcr_bytes
marshal_adaptation-stuffing left h =
    let some_length : ltb (183 - left) 1 ≡ false = ground arith in
    let fill : 183 - left + 1 - 2 ≡ 182 - left = omega arith in rw (some_length, fill) refl

-- The last packet: an empty field in front of the chunk.
pub mux-stuffed :
    (first fin : Bool) (counters : ℕ → ℕ) (dts left : ℕ) (p p1 p2 : Pes) (chunk : Bytes)
    → remain_pes p ≡ (p1, left)
    → left < 183
    → marshal_pes p1 left ≡ some (p2, chunk, fin)
    → length chunk ≡ left
    → mux false dts (pes p) (new_ts ts_video_pid counters first).0 ≡ record {
      psi = pes p2;
      bytes = packet first 3 (counters ts_video_pid) (((183 - left) ∷ stuffing left) ++ chunk);
      finish = fin;
      failed = false;
    }
unfolding prepare add_pcr add_stuffing new_ts remain_psi write_adaptation ts_header pointer_field
mux-stuffed first fin counters dts left p p1 p2 chunk hr hl hm hc =
    let ts : Ts = (new_ts ts_video_pid counters first).0 in
    let af : AdaptationField = record no_adaptation { adaptation_field_length = 183 - left } in
    let ts1 : Ts = record ts { adaptation_field_exist = 3; adaptation_field = some af } in
    let narrow : ltb left 184 ≡ true = ground arith in
    let len : 184 - left - 1 ≡ 183 - left = omega arith in
    let ready : prepare false dts (pes p) ts ≡ (ts1, pes p1) = rw (hr, narrow, len) refl in
    let field : write_adaptation ts1 ≡ ((183 - left) ∷ stuffing left, false) =
      rw (marshal_adaptation-stuffing left hl) refl in
    let room : 184 - length ((183 - left) ∷ stuffing left) ≡ left =
      ground (arith, length-replicate {A = ℕ} (182 - left) 0xff) in
    mux_parts false dts (pes p) ts ts1 (pes p1) ((183 - left) ∷ stuffing left)
      (record { psi = pes p2; bytes = chunk; finish = fin; failed = false }) ready refl field
      (rw room (marshal_psi-pes p1 p2 left chunk fin hm)) (hc ∙ sym room)

-- The clock of a key frame, as the field that AddPCR sets.
abbrev pub clock : ℕ → AdaptationField
clock dts = record {
  adaptation_field_length = 7;
  random_access_indicator = 1;
  pcr_flag = 1;
  program_clock_reference_base = dts;
}

-- The first packet of a key frame: the clock in front of the chunk.
pub mux-clock :
    (first fin : Bool) (counters : ℕ → ℕ) (dts left : ℕ) (p p1 p2 : Pes) (chunk : Bytes)
    → remain_pes p ≡ (p1, left)
    → 176 ≤ left
    → marshal_pes p1 176 ≡ some (p2, chunk, fin)
    → length chunk ≡ 176
    → mux true dts (pes p) (new_ts ts_video_pid counters first).0 ≡ record {
      psi = pes p2;
      bytes = packet first 3 (counters ts_video_pid) ((7 ∷ 0x50 ∷ pcr_bytes (clock dts)) ++ chunk);
      finish = fin;
      failed = false;
    }
unfolding prepare add_pcr add_stuffing new_ts remain_psi write_adaptation ts_header pointer_field
    marshal_adaptation pcr_bytes
mux-clock first fin counters dts left p p1 p2 chunk hr hl hm hc =
    let ts : Ts = (new_ts ts_video_pid counters first).0 in
    let ts1 : Ts = record ts { adaptation_field_exist = 3; adaptation_field = some (clock dts) } in
    let wide : ltb left 176 ≡ false = ground arith in
    let ready : prepare true dts (pes p) ts ≡ (ts1, pes p1) = rw (hr, wide) refl in
    mux_parts true dts (pes p) ts ts1 (pes p1) (7 ∷ 0x50 ∷ pcr_bytes (clock dts))
      (record { psi = pes p2; bytes = chunk; finish = fin; failed = false }) ready refl refl
      (marshal_psi-pes p1 p2 176 chunk fin hm) hc
