-- ===== src/Rtmp/Message.antt =====
-- librtmp/message.go, audio.go and video.go: assembling a message from chunks, splitting one into
-- chunks, and the window acknowledgement.
use ggmpeg.Prelude.{
  ℕ, zero, suc, ◌+◌, ◌-◌, ◌*◌, ◌/◌, ◌%◌, ◌^◌, ◌≤◌, ◌<◌, ◌≡◌, refl, sym, ap, ◌∙◌, ◌≢◌, ◌↔◌, ◌⊎◌, inl,
  inr, Bool, true, false, not, ◌&&◌, ◌||◌, Option, none, some, List, [], ◌∷◌, ◌++◌, append-nil,
  append_assoc, arith, ltb, leb, ◌==◌, if◌then◌else◌, ltb→lt, lt→ltb, leb→le, le→leb, leb-false→lt,
  ltb-false→le, ==_iff, tests, Bool-cases, Option-cases, length, get_elem?, set, length-append,
  get_or, take, drop, replicate, take-append-drop, length-take, length-drop, length-replicate,
  take-append_left, drop-append_left, take_whole, drop_whole, Bytes, IsByte, All, All-append, at,
  has_bit, put_be16, put_be24, put_be32, be16_at, be24_at, be32_at,
}
use ggmpeg.Rtmp.Reader
use ggmpeg.Rtmp.Reader.{Reader, Parser, read, pure, fail}
use ggmpeg.Rtmp.Chunk.{HeaderType, fmt0, fmt3, Chunk, ChunkState, parse_chunk, new_chunk, send}
pub mod Slices
pub mod Steps
pub mod RoundTrip
pub mod Window

pub record MessageBase : Type 0 where
  pub time : ℕ
  pub message_length : ℕ
  pub message_type : ℕ
  pub stream_id : ℕ
  pub payload : Bytes

abbrev pub audio_message : ℕ
audio_message = 8

abbrev pub video_message : ℕ
video_message = 9

-- The cases of the switch over the type: control, audio, video, AMF messages and the aggregate.
unfoldable pub is_message_type : ℕ → Bool
is_message_type t =
    (leb 1 t && leb t 6)
    || t == audio_message
    || t == video_message
    || (leb 15 t && leb t 20)
    || t == 22

-- A uint32.
unfoldable pub remain : MessageBase → ℕ
remain m = (m.message_length + 2 ^ 32 - length m.payload) % 2 ^ 32

unfoldable pub done : MessageBase → Bool
done m = remain m == 0

unfoldable pub append : Chunk → MessageBase → MessageBase
append c m = record m { payload = m.payload ++ c.payload }

-- The first chunk makes the message, a later one updates its time.
unfoldable pub start_message : Option MessageBase → Chunk → Option MessageBase
start_message none c =
    if is_message_type c.header.message_type
    then some (record {
      time = c.header.timestamp;
      message_length = c.header.message_length;
      message_type = c.header.message_type;
      stream_id = c.header.stream_id;
      payload = [];
    })
    else none
start_message (some m) c = some (record m { time = c.header.timestamp })

unfoldable pub remain_of : Option MessageBase → Option ℕ
remain_of none = none
remain_of (some m) = some (remain m)

module _ (R : Reader) where
  infixl 5 ◌>>=◌
  abbrev ◌>>=◌ : {A B : Type 0} → Parser R A → (A → Parser R B) → Parser R B
  m >>= f = Reader.◌>>=◌ R m f

  -- The loop over chunks, on fuel, up to the complete message.
  unfoldable pub collect : ℕ → Option MessageBase → ChunkState → Parser R (MessageBase × ChunkState)
  collect zero m s = fail R
  collect (suc n) m s = do
    (c, s1) ← parse_chunk R (remain_of m) s
    elim (start_message m c) [
      | none ↦ fail R
      | some m1 ↦
          (let m2 = append c m1 in
            let rest = collect n (some m2) s1 in if done m2 then pure R (m2, s1) else rest)
    ]

-- payload[l:r]
unfoldable pub slice : ℕ → ℕ → Bytes → Bytes
slice l r b = take (r - l) (drop l b)

-- The loop of Send, on fuel: FMT0 first, then FMT3, `size` bytes at a time. The chunk stream is
-- csidAudio or csidVideo.
unfoldable pub send_loop : ℕ → ℕ → ℕ → ℕ → ℕ → ℕ → Bytes → Option Bytes
send_loop zero i size type time csid b = none
send_loop (suc n) i size type time csid b =
    let l = i * size in
    let r = if ltb (length b) (l + size) then length b else l + size in
    let fmt = if not (i == 0) then fmt3 else fmt0 in
    let rest = send_loop n (suc i) size type time csid b in
    if leb (length b) l
    then some []
    else elim (send (new_chunk type (length b) time fmt csid (slice l r b))) [
      | none ↦ none
      | some x ↦ elim rest [ some xs ↦ some (x ++ xs) | none ↦ none ]
    ]

unfoldable pub send_message : ℕ → ℕ → ℕ → ℕ → Bytes → Option Bytes
send_message size type time csid b = send_loop (suc (length b)) 0 size type time csid b

-- The fields of RTMP for acknowledgements, all uint32.
pub record AckState : Type 0 where
  pub bytes_received : ℕ
  pub last_acked : ℕ
  pub peer_window_ack_size : ℕ

-- After a message: the acknowledgement's sequence number if one is due, and what is kept. `sent`
-- tells whether sending it succeeds.
unfoldable pub acknowledge : Bool → MessageBase → AckState → AckState × Option ℕ
acknowledge sent m a =
    let received = (a.bytes_received + m.message_length) % 2 ^ 32 in
    let a1 = record a { bytes_received = received } in
    if ltb 0 a.peer_window_ack_size
      && leb a.peer_window_ack_size ((received + 2 ^ 32 - a.last_acked) % 2 ^ 32)
    then ((if sent then record a1 { last_acked = received } else a1), some received)
    else (a1, none)
