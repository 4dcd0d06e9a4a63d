-- ===== src/Srt/Demux.antt =====
-- libsrt/tsdemux.go: the transport stream demultiplexer. A callback that is set becomes an event of
-- the result, and a slice bound out of range becomes a panic.
use ggmpeg.Prelude.{
  ℕ, zero, suc, ◌+◌, ◌-◌, ◌*◌, ◌/◌, ◌%◌, ◌^◌, ◌≤◌, ◌<◌, ◌≡◌, refl, sym, ap, ◌∙◌, ◌≢◌, ◌↔◌, ◌⊎◌, inl,
  inr, Bool, true, false, not, ◌&&◌, ◌||◌, Option, none, some, List, [], ◌∷◌, ◌++◌, append-nil,
  append_assoc, arith, ltb, leb, ◌==◌, if◌then◌else◌, ltb→lt, lt→ltb, leb→le, le→leb, leb-false→lt,
  ltb-false→le, ==_iff, tests, Bool-cases, Option-cases, length, get_elem?, set, length-append,
  get_or, take, drop, replicate, take-append-drop, length-take, length-drop, length-replicate,
  take-append_left, drop-append_left, take_whole, drop_whole, drop-append_past, take-append_past,
  Bytes, IsByte, All, All-append, at, has_bit, put_be16, put_be24, put_be32, be16_at, be24_at,
  be32_at,
}
pub mod Keyframe
pub mod Panics
pub mod Stamps
pub mod Tests

abbrev pub ts_packet_size : ℕ
ts_packet_size = 188

pub record AccessUnit : Type 0 where
  pub pts : ℕ
  pub dts : ℕ
  pub key : Bool
  pub nal : Bytes

pub record AudioFrame : Type 0 where
  pub pts : ℕ
  pub payload : Bytes

pub data Event : Type 0 where
  on_video : AccessUnit → Event
  on_audio : AudioFrame → Event

-- The callbacks are set or nil.
pub record Demuxer : Type 0 where
  pub pmt_pid : ℕ
  pub video_pid : ℕ
  pub audio_pid : ℕ
  pub video_buf : Bytes
  pub video_ts : ℕ
  pub video_dts : ℕ
  pub audio_buf : Bytes
  pub audio_ts : ℕ
  pub has_on_video : Bool
  pub has_on_audio : Bool

-- The loop over start codes at the head of what is left, on fuel.
unfoldable pub keyframe_loop : ℕ → Bytes → Bool
keyframe_loop zero b = false
keyframe_loop (suc n) b =
    let after3 = keyframe_loop n (drop 4 b) in
    let after4 = keyframe_loop n (drop 5 b) in
    let after1 = keyframe_loop n (drop 1 b) in
    if leb (length b) 4
    then false
    else if at b 0 == 0 && at b 1 == 0 && at b 2 == 1
    then if at b 3 % 2 ^ 5 == 5 then true else after3
    else if at b 0 == 0 && at b 1 == 0 && at b 2 == 0 && at b 3 == 1
    then if at b 4 % 2 ^ 5 == 5 then true else after4
    else after1

unfoldable pub contains_annexb_keyframe : Bytes → Bool
contains_annexb_keyframe b = keyframe_loop (length b) b

-- `v & 0x0E` and `v & 0xFE` of a byte clear bits by products.
abbrev pub read_pts : Bytes → ℕ → ℕ
read_pts b i =
    at b i % 2 ^ 4 / 2 * 2 ^ 30
    + at b (i + 1) * 2 ^ 22
    + at b (i + 2) / 2 * 2 ^ 15
    + at b (i + 3) * 2 ^ 7
    + at b (i + 4) / 2

-- The time stamps and the body, none where the source's ok is false.
unfoldable pub parse_pes_header : Bytes → Option (ℕ × ℕ × Bytes)
parse_pes_header b =
    let flag = at b 7 / 2 ^ 6 in
    let hdr_len = at b 8 in
    let body = drop (9 + hdr_len) b in
    if ltb (length b) 9
    then none
    else if not (at b 0 == 0) || not (at b 1 == 0) || not (at b 2 == 1)
    then none
    else if ltb (length b) (9 + hdr_len)
    then none
    else if flag == 2
    then if ltb hdr_len 5 then none else some (read_pts b 9, read_pts b 9, body)
    else if flag == 3
    then if ltb hdr_len 10 then none else some (read_pts b 9, read_pts b 14, body)
    else some (0, 0, body)

unfoldable pub flush_video : Demuxer → Demuxer × List Event
flush_video d =
    let unit : AccessUnit = record {
      pts = d.video_ts;
      dts = d.video_dts;
      key = contains_annexb_keyframe d.video_buf;
      nal = d.video_buf;
    } in
    (record d { video_buf = [] }, if d.has_on_video then on_video unit ∷ [] else [])

unfoldable pub flush_audio : Demuxer → Demuxer × List Event
flush_audio d =
    let frame : AudioFrame = record { pts = d.audio_ts; payload = d.audio_buf } in
    (record d { audio_buf = [] }, if d.has_on_audio then on_audio frame ∷ [] else [])

-- A new PES, or nothing if its header is refused.
unfoldable pub start_video : Bytes → Demuxer → Demuxer
start_video payload d = elim (parse_pes_header payload) [
  | some (pts, dts, body) ↦ record d { video_ts = pts; video_dts = dts; video_buf = body }
  | none ↦ d
]

unfoldable pub feed_video : Bool → Bytes → Demuxer → Demuxer × List Event
feed_video pusi payload d =
    let (d1, events) = if pusi && ltb 0 (length d.video_buf) then flush_video d else (d, []) in
    if pusi
    then (start_video payload d1, events)
    else (record d1 { video_buf = d1.video_buf ++ payload }, events)

unfoldable pub start_audio : Bytes → Demuxer → Demuxer
start_audio payload d = elim (parse_pes_header payload) [
  | some (pts, dts, body) ↦ record d { audio_ts = pts; audio_buf = body }
  | none ↦ d
]

unfoldable pub feed_audio : Bool → Bytes → Demuxer → Demuxer × List Event
feed_audio pusi payload d =
    let (d1, events) = if pusi && ltb 0 (length d.audio_buf) then flush_audio d else (d, []) in
    if pusi
    then (start_audio payload d1, events)
    else (record d1 { audio_buf = d1.audio_buf ++ payload }, events)

-- The first program of the association loop, on what is left of the body; on fuel.
unfoldable pub pat_loop : ℕ → Bytes → Option ℕ
pat_loop zero rest = none
pat_loop (suc n) rest =
    let next = pat_loop n (drop 4 rest) in
    if ltb (length rest) 8
    then none
    else if not (be16_at rest 0 == 0)
    then some (be16_at rest 2 % 2 ^ 13)
    else next

unfoldable pub parse_pat : Bytes → Demuxer → Demuxer
parse_pat payload d =
    let pointer = at payload 0 in
    let body = drop (1 + pointer) payload in
    if ltb (length payload) 2
    then d
    else if ltb (length payload) (1 + pointer + 8)
    then d
    else (elim (pat_loop (length body) (drop 8 body)) [
      | some pid ↦ record d { pmt_pid = pid }
      | none ↦ d
    ])

-- One stream of the map.
unfoldable pub set_stream : ℕ → ℕ → Demuxer → Demuxer
set_stream stream_type pid d =
    if stream_type == 0x1B || stream_type == 0x24
    then record d { video_pid = pid }
    else if stream_type == 0x0F
    then record d { audio_pid = pid }
    else d

-- The loop over the streams at `off`; on fuel.
unfoldable pub pmt_loop : ℕ → ℕ → ℕ → Bytes → Demuxer → Demuxer
pmt_loop zero off section_len body d = d
pmt_loop (suc n) off section_len body d =
    let es_info_len = be16_at body (off + 3) % 2 ^ 12 in
    let d1 = set_stream (at body off) (be16_at body (off + 1) % 2 ^ 13) d in
    let next = pmt_loop n (off + (5 + es_info_len)) section_len body d1 in
    if leb (off + 5 + 4) section_len then next else d

-- None is the panic of `payload[1+pointer:]`.
unfoldable pub parse_pmt : Bytes → Demuxer → Option Demuxer
parse_pmt payload d =
    let pointer = at payload 0 in
    let body = drop (1 + pointer) payload in
    let declared = be16_at body 1 % 2 ^ 12 + 3 in
    let section_len = if ltb (length body) declared then length body else declared in
    let prog_info_len = be16_at body 10 % 2 ^ 12 in
    if ltb (length payload) 2
    then some d
    else if ltb (length payload) (1 + pointer)
    then none
    else if ltb (length body) 12
    then some d
    else some (pmt_loop section_len (12 + prog_info_len) section_len body d)

-- The packet's payload, and whether it has one: behind the adaptation field, if that stays within
-- the packet.
unfoldable pub payload_of : Bytes → Option Bytes
payload_of pkt =
    let af_ctrl = at pkt 3 / 2 ^ 4 % 2 ^ 2 in
    let off = if af_ctrl == 2 || af_ctrl == 3 then 4 + (1 + at pkt 4) else 4 in
    if (af_ctrl == 2 || af_ctrl == 3) && ltb ts_packet_size off
    then none
    else if af_ctrl == 0 || af_ctrl == 2
    then none
    else some (drop off pkt)

-- The dispatch on the PID; none is a panic.
unfoldable pub feed_payload : ℕ → Bool → Bytes → Demuxer → Option (Demuxer × List Event)
feed_payload pid pusi payload d =
    if pid == 0
    then some (parse_pat payload d, [])
    else if pid == d.pmt_pid
    then (elim (parse_pmt payload d) [ some d1 ↦ some (d1, []) | none ↦ none ])
    else if pid == d.video_pid
    then some (feed_video pusi payload d)
    else if pid == d.audio_pid
    then some (feed_audio pusi payload d)
    else some (d, [])

unfoldable pub feed_packet : Bytes → Demuxer → Option (Demuxer × List Event)
feed_packet pkt d =
    let pid = at pkt 1 % 2 ^ 5 * 2 ^ 8 + at pkt 2 in
    elim (payload_of pkt) [
      | some payload ↦ feed_payload pid (has_bit (at pkt 1) 6) payload d
      | none ↦ some (d, [])
    ]

-- Feed over what is left of the datagram; on fuel.
unfoldable pub feed_loop : ℕ → Bytes → Demuxer → Option (Demuxer × List Event)
feed_loop zero b d = some (d, [])
feed_loop (suc n) b d =
    if ltb (length b) ts_packet_size
    then some (d, [])
    else if not (at b 0 == 0x47)
    then some (d, [])
    else (elim (feed_packet (take ts_packet_size b) d) [
      | some (d1, events) ↦ elim (feed_loop n (drop ts_packet_size b) d1) [
        | some (d2, more) ↦ some (d2, events ++ more)
        | none ↦ none
      ]
      | none ↦ none
    ])

unfoldable pub feed : Bytes → Demuxer → Option (Demuxer × List Event)
feed b d = feed_loop (length b) b d
