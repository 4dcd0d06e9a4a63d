-- ===== src/Rtmp/Control.antt =====
-- librtmp/control_message.go: parsing, sending and handling the six control messages.
use ggmpeg.Prelude.{
  ℕ, zero, suc, ◌+◌, ◌-◌, ◌*◌, ◌/◌, ◌%◌, ◌^◌, ◌≤◌, ◌<◌, ◌≡◌, refl, sym, ap, ◌∙◌, ◌≢◌, ◌↔◌, ◌⊎◌, inl,
  inr, Bool, true, false, not, ◌&&◌, ◌||◌, Option, none, some, List, [], ◌∷◌, ◌++◌, append-nil,
  append_assoc, arith, ltb, leb, ◌==◌, if◌then◌else◌, ltb→lt, lt→ltb, leb→le, le→leb, leb-false→lt,
  ltb-false→le, ==_iff, tests, Bool-cases, Option-cases, length, get_elem?, set, length-append,
  get_or, take, drop, replicate, take-append-drop, length-take, length-drop, length-replicate,
  take-append_left, drop-append_left, take_whole, drop_whole, Bytes, IsByte, All, All-append, at,
  has_bit, put_be16, put_be24, put_be32, be16_at, be24_at, be32_at,
}
use ggmpeg.Rtmp.Chunk.{fmt0, Chunk, ChunkState, new_chunk, send}
use ggmpeg.Rtmp.Message.{AckState}
pub mod Wire
pub mod Effects
mod Tests

abbrev pub csid_protocol_control : ℕ
csid_protocol_control = 11

abbrev pub csid_peer_bandwidth : ℕ
csid_peer_bandwidth = 12

abbrev pub csid_user_control : ℕ
csid_user_control = 13

abbrev pub set_buffer_length : ℕ
set_buffer_length = 3

abbrev pub ping_request : ℕ
ping_request = 6

abbrev pub ping_response : ℕ
ping_response = 7

-- The message types with the fields of their structs.
pub data ControlMessage : Type 0 where
  set_chunk_size : ℕ → ControlMessage
  abort : ℕ → ControlMessage
  acknowledgement : ℕ → ControlMessage
  user_control : ℕ → Bytes → ControlMessage
  window_acknowledge_size : ℕ → ControlMessage
  set_peer_bandwidth : ℕ → ℕ → ControlMessage

abbrev pub message_type_of : ControlMessage → ℕ
message_type_of (set_chunk_size n) = 1
message_type_of (abort n) = 2
message_type_of (acknowledgement n) = 3
message_type_of (user_control e d) = 4
message_type_of (window_acknowledge_size n) = 5
message_type_of (set_peer_bandwidth n l) = 6

-- An error, or the panic of binary.BigEndian.Uint32 on less than four bytes.
pub data Parsed : Type 0 where
  parsed : ControlMessage → Parsed
  failed : Parsed
  panicked : Parsed

abbrev pub parse_set_chunk_size : Bytes → Parsed
parse_set_chunk_size b =
    if ltb (length b) 4 then panicked else parsed (set_chunk_size (be32_at b 0))

abbrev pub parse_abort : Bytes → Parsed
parse_abort b = if ltb (length b) 4 then failed else parsed (abort (be32_at b 0))

abbrev pub parse_acknowledgement : Bytes → Parsed
parse_acknowledgement b =
    if ltb (length b) 4 then failed else parsed (acknowledgement (be32_at b 0))

abbrev pub parse_user_control : Bytes → Parsed
parse_user_control b =
    if ltb (length b) 2 then failed else parsed (user_control (be16_at b 0) (drop 2 b))

abbrev pub parse_window_acknowledge_size : Bytes → Parsed
parse_window_acknowledge_size b =
    if ltb (length b) 4 then panicked else parsed (window_acknowledge_size (be32_at b 0))

abbrev pub parse_set_peer_bandwidth : Bytes → Parsed
parse_set_peer_bandwidth b =
    if ltb (length b) 5 then failed else parsed (set_peer_bandwidth (be32_at b 0) (at b 4))

-- Parse of the message that the type selects; types 1 to 6 only.
unfoldable pub parse_control : ℕ → Bytes → Parsed
parse_control type b =
    if type == 1
    then parse_set_chunk_size b
    else if type == 2
    then parse_abort b
    else if type == 3
    then parse_acknowledgement b
    else if type == 4
    then parse_user_control b
    else if type == 5
    then parse_window_acknowledge_size b
    else if type == 6
    then parse_set_peer_bandwidth b
    else failed

-- The payload of a user control message, on the stream `stream`.
unfoldable pub user_payload : ℕ → ℕ → Bytes → Option Bytes
user_payload stream event b =
    if event == 0 || event == 1 || event == 2 || event == 4
    then some (put_be16 event ++ put_be32 stream)
    else if event == set_buffer_length
    then if ltb (length b) 4 then none else some (put_be16 event ++ (put_be32 stream ++ take 4 b))
    else if event == ping_request || event == ping_response
    then some (put_be16 event ++ (if leb 4 (length b) then take 4 b else replicate 4 0))
    else none

unfoldable pub control_payload : ℕ → ControlMessage → Option Bytes
control_payload stream (set_chunk_size n) = some (put_be32 n)
control_payload stream (abort n) = some (put_be32 n)
control_payload stream (acknowledgement n) = some (put_be32 n)
control_payload stream (user_control e d) = user_payload stream e d
control_payload stream (window_acknowledge_size n) = some (put_be32 n)
control_payload stream (set_peer_bandwidth n l) = some (put_be32 n ++ ((l % 256) ∷ []))

abbrev pub csid_of : ControlMessage → ℕ
csid_of (set_chunk_size n) = csid_protocol_control
csid_of (abort n) = csid_protocol_control
csid_of (acknowledgement n) = csid_protocol_control
csid_of (user_control e d) = csid_user_control
csid_of (window_acknowledge_size n) = csid_protocol_control
csid_of (set_peer_bandwidth n l) = csid_peer_bandwidth

-- Send: one FMT0 chunk.
unfoldable pub send_control : ℕ → ℕ → ControlMessage → Option Bytes
send_control time stream m = elim (control_payload stream m) [
  | some b ↦ send (new_chunk (message_type_of m) (length b) time fmt0 (csid_of m) b)
  | none ↦ none
]

-- The fields of RTMP that control messages change.
pub record Connection : Type 0 where
  pub chunks : ChunkState
  pub acks : AckState
  pub peer_bandwidth : ℕ
  pub peer_bandwidth_limit : ℕ

unfoldable pub delete_chunk : ℕ → List (ℕ × Chunk) → List (ℕ × Chunk)
delete_chunk csid [] = []
delete_chunk csid ((k, c) ∷ m) =
    let rest = delete_chunk csid m in if k == csid then rest else (k, c) ∷ rest

abbrev pub do_set_chunk_size : ℕ → Connection → Connection
do_set_chunk_size n c = record c { chunks = record c.chunks { peer_max_chunk_size = n } }

abbrev pub do_abort : ℕ → Connection → Connection
do_abort n c = record c {
  chunks = record c.chunks { last_chunk = delete_chunk n c.chunks.last_chunk };
}

-- The reply to a user control message, on the message's own base, so with its time and stream.
abbrev pub do_user_control : ℕ → Bytes → Option ControlMessage
do_user_control e d =
    if e == ping_request && leb 4 (length d)
    then some (user_control ping_response (take 4 d))
    else none

abbrev pub do_window_acknowledge_size : ℕ → Connection → Connection
do_window_acknowledge_size n c = record c { acks = record c.acks { peer_window_ack_size = n } }

abbrev pub do_set_peer_bandwidth : ℕ → ℕ → Connection → Connection
do_set_peer_bandwidth n l c = record c { peer_bandwidth = n; peer_bandwidth_limit = l }

-- Do: the connection after it, and the message that is sent in reply.
unfoldable pub do_control : ControlMessage → Connection → Connection × Option ControlMessage
do_control (set_chunk_size n) c = (do_set_chunk_size n c, none)
do_control (abort n) c = (do_abort n c, none)
do_control (acknowledgement n) c = (c, none)
do_control (user_control e d) c = (c, do_user_control e d)
do_control (window_acknowledge_size n) c = (do_window_acknowledge_size n c, none)
do_control (set_peer_bandwidth n l) c = (do_set_peer_bandwidth n l c, none)
