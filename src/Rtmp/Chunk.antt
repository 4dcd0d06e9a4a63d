-- ===== src/Rtmp/Chunk.antt =====
-- librtmp/chunk.go: the basic and message headers of a chunk, parsing with the state of the chunk
-- streams, and sending.
use ggmpeg.Prelude.{
  ℕ, zero, suc, ◌+◌, ◌-◌, ◌*◌, ◌/◌, ◌%◌, ◌^◌, ◌≤◌, ◌<◌, ◌≡◌, refl, sym, ap, ◌∙◌, ◌≢◌, ◌↔◌, ◌⊎◌, inl,
  inr, Bool, true, false, not, ◌&&◌, ◌||◌, Option, none, some, List, [], ◌∷◌, ◌++◌, append-nil,
  append_assoc, arith, ltb, leb, ◌==◌, if◌then◌else◌, ltb→lt, lt→ltb, leb→le, le→leb, leb-false→lt,
  ltb-false→le, ==_iff, tests, Bool-cases, Option-cases, length, get_elem?, set, length-append,
  get_or, take, drop, replicate, take-append-drop, length-take, length-drop, length-replicate,
  take-append_left, drop-append_left, take_whole, drop_whole, Bytes, IsByte, All, All-append, at,
  has_bit, put_be16, put_be24, put_be32, be16_at, be24_at, be32_at,
}
use ggmpeg.Rtmp.Reader
use ggmpeg.Rtmp.Reader.{Reader, Parser, read, pure, fail}
pub mod Header
pub mod Send

pub data HeaderType : Type 0 where
  fmt0 fmt1 fmt2 fmt3 : HeaderType

abbrev pub fmt_code : HeaderType → ℕ
fmt_code fmt0 = 0
fmt_code fmt1 = 1
fmt_code fmt2 = 2
fmt_code fmt3 = 3

-- The two top bits of a byte.
abbrev pub fmt_of : ℕ → HeaderType
fmt_of n = if n == 0 then fmt0 else if n == 1 then fmt1 else if n == 2 then fmt2 else fmt3

abbrev pub max_timestamp : ℕ
max_timestamp = 0xFFFFFF

pub record BasicHeader : Type 0 where
  pub fmt : HeaderType
  pub csid : ℕ

pub record MessageHeader : Type 0 where
  pub timestamp : ℕ
  pub delta : ℕ
  pub message_length : ℕ
  pub message_type : ℕ
  pub stream_id : ℕ
  pub extended : Bool

pub record Chunk : Type 0 where
  pub basic : BasicHeader
  pub header : MessageHeader
  pub payload : Bytes

-- The connection's chunk state: the map `lastChunk`, and the peer's chunk size.
pub record ChunkState : Type 0 where
  pub last_chunk : List (ℕ × Chunk)
  pub peer_max_chunk_size : ℕ

unfoldable pub find_chunk : ℕ → List (ℕ × Chunk) → Option Chunk
find_chunk csid [] = none
find_chunk csid ((k, c) ∷ m) = if k == csid then some c else find_chunk csid m

unfoldable pub store_chunk : ℕ → Chunk → List (ℕ × Chunk) → List (ℕ × Chunk)
store_chunk csid c [] = (csid, c) ∷ []
store_chunk csid c ((k, d) ∷ m) = if k == csid then (csid, c) ∷ m else (k, d) ∷ store_chunk csid c m

-- binary.LittleEndian.Uint32 of the bytes from `i` on, and PutUint32.
abbrev pub le32_at : Bytes → ℕ → ℕ
le32_at b i =
    at b i + at b (suc i) * 2 ^ 8 + at b (suc (suc i)) * 2 ^ 16 + at b (suc (suc (suc i))) * 2 ^ 24

abbrev pub put_le32 : ℕ → Bytes
put_le32 x = (x % 256) ∷ (x / 2 ^ 8 % 256) ∷ (x / 2 ^ 16 % 256) ∷ (x / 2 ^ 24 % 256) ∷ []

-- The headers that FMT1, FMT2 and FMT3 complete from the last chunk of the stream, with the raw
-- timestamp field in which the mark of an extended timestamp is looked for.
unfoldable pub header0 : Bytes → MessageHeader × ℕ
header0 b = (
  record {
    timestamp = be24_at b 0;
    delta = 0;
    message_length = be24_at b 3;
    message_type = at b 6;
    stream_id = le32_at b 7;
    extended = false;
  },
  be24_at b 0,
)

unfoldable pub header1 : MessageHeader → Bytes → MessageHeader × ℕ
header1 last b = (
  record {
    timestamp = 0;
    delta = be24_at b 0;
    message_length = be24_at b 3;
    message_type = at b 6;
    stream_id = last.stream_id;
    extended = false;
  },
  be24_at b 0,
)

unfoldable pub header2 : MessageHeader → Bytes → MessageHeader × ℕ
header2 last b = (
  record {
    timestamp = 0;
    delta = be24_at b 0;
    message_length = last.message_length;
    message_type = last.message_type;
    stream_id = last.stream_id;
    extended = false;
  },
  be24_at b 0,
)

unfoldable pub header3 : MessageHeader → MessageHeader × ℕ
header3 last = (record last { extended = false }, if last.extended then max_timestamp else 0)

-- Where the extended timestamp goes.
unfoldable pub extend : HeaderType → MessageHeader → ℕ → MessageHeader
extend fmt0 h ext = record h { extended = true; timestamp = ext }
extend fmt1 h ext = record h { extended = true; delta = ext }
extend fmt2 h ext = record h { extended = true; delta = ext }
extend fmt3 h ext = record h { extended = true }

-- The cumulative timestamp, modulo 2 ^ 32.
unfoldable pub accumulate : HeaderType → MessageHeader → Bool → MessageHeader → MessageHeader
accumulate fmt0 last first h = h
accumulate fmt1 last first h = record h { timestamp = (last.timestamp + h.delta) % 2 ^ 32 }
accumulate fmt2 last first h = record h { timestamp = (last.timestamp + h.delta) % 2 ^ 32 }
accumulate fmt3 last first h =
    if first then record h { timestamp = (h.timestamp + h.delta) % 2 ^ 32 } else h

-- Stands where FMT0 looks at no last chunk.
abbrev pub no_header : MessageHeader
no_header = record {
  timestamp = 0;
  delta = 0;
  message_length = 0;
  message_type = 0;
  stream_id = 0;
  extended = false;
}

unfoldable pub fixed_header : HeaderType → MessageHeader → Bytes → MessageHeader × ℕ
unfolding header0 header1 header2 header3
fixed_header fmt0 last b = header0 b
fixed_header fmt1 last b = header1 last b
fixed_header fmt2 last b = header2 last b
fixed_header fmt3 last b = header3 last

unfoldable pub is_none : Option ℕ → Bool
is_none none = true
is_none (some n) = false

-- No more than the peer's chunk size, nor than what the message still lacks.
unfoldable pub chunk_size : Option ℕ → ℕ → ℕ → ℕ
chunk_size remain max len =
    let size = if ltb max len then max else len in
    elim remain [ some r ↦ if ltb r size then r else size | none ↦ size ]

module _ (R : Reader) where
  open R use {Conn}

  infixl 5 ◌>>=◌
  abbrev ◌>>=◌ : {A B : Type 0} → Parser R A → (A → Parser R B) → Parser R B
  m >>= f = Reader.◌>>=◌ R m f

  unfoldable pub parse_basic_header : Parser R BasicHeader
  parse_basic_header = do
    b ← read R 1
    let fmt = fmt_of (at b 0 / 2 ^ 6 % 2 ^ 2)
    let csid = at b 0 % 2 ^ 6
    if csid == 0
        then (do b1 ← read R 1; pure R (record { fmt = fmt; csid = at b1 0 + 64 }))
        else if csid == 1
        then (do b2 ← read R 2; pure R (record { fmt = fmt; csid = at b2 0 + at b2 1 * 256 + 64 }))
        else pure R (record { fmt = fmt; csid = csid })

  abbrev pub read_fixed : HeaderType → Parser R Bytes
  read_fixed fmt0 = read R 11
  read_fixed fmt1 = read R 7
  read_fixed fmt2 = read R 3
  read_fixed fmt3 = pure R []

  -- The header's own bytes, an extended timestamp if the raw field is the mark, and the cumulative
  -- timestamp, which depends on whether this chunk starts a message.
  unfoldable pub parse_message_header :
      List (ℕ × Chunk) → BasicHeader → Bool → Parser R MessageHeader
  parse_message_header chunks basic first =
      let complete = λ (last : MessageHeader). (do
        b ← read_fixed basic.fmt
        let (h, raw) = fixed_header basic.fmt last b
        if raw == max_timestamp
            then (do
              b4 ← read R 4
              pure R (accumulate basic.fmt last first (extend basic.fmt h (be32_at b4 0))))
            else pure R (accumulate basic.fmt last first h)) in
      elim (find_chunk basic.csid chunks) [
        | some c ↦ complete c.header
        | none ↦ if not (fmt_code basic.fmt == 0) then fail R else complete no_header
      ]

  -- `remain` is none where the source's message is nil.
  unfoldable pub parse_chunk : Option ℕ → ChunkState → Parser R (Chunk × ChunkState)
  parse_chunk remain s = do
    basic ← parse_basic_header
    header ← parse_message_header s.last_chunk basic (is_none remain)
    b ← read R (chunk_size remain s.peer_max_chunk_size header.message_length)
    let c : Chunk = record { basic = basic; header = header; payload = b }
    pure R (c, record s { last_chunk = store_chunk basic.csid c s.last_chunk })

-- A chunk to send. NewChunk leaves the delta and the stream 0.
unfoldable pub new_chunk : ℕ → ℕ → ℕ → HeaderType → ℕ → Bytes → Chunk
new_chunk type len time fmt csid b = record {
  basic = record { fmt = fmt; csid = csid };
  header = record {
    timestamp = time;
    delta = 0;
    message_length = len;
    message_type = type;
    stream_id = 0;
    extended = leb max_timestamp time;
  };
  payload = b;
}

-- The first one to three bytes; a csid below 3 is an error.
unfoldable pub send_basic_header : BasicHeader → Option Bytes
send_basic_header b =
    if ltb b.csid 3
    then none
    else if ltb b.csid 64
    then some ((fmt_code b.fmt * 2 ^ 6 + b.csid % 2 ^ 6) ∷ [])
    else if ltb b.csid 320
    then some ((fmt_code b.fmt * 2 ^ 6) ∷ ((b.csid - 64) % 256) ∷ [])
    else some ((fmt_code b.fmt * 2 ^ 6 + 1) ∷ put_be16 ((b.csid - 64) % 2 ^ 16))

-- The field that carries the time: a delta for FMT1 and FMT2.
unfoldable pub time_field : HeaderType → MessageHeader → ℕ
time_field fmt0 h = h.timestamp
time_field fmt1 h = h.delta
time_field fmt2 h = h.delta
time_field fmt3 h = h.timestamp

unfoldable pub send_fixed_header : HeaderType → MessageHeader → ℕ → Bytes
send_fixed_header fmt0 h inline =
    put_be24 inline ++ (put_be24 h.message_length ++ (h.message_type ∷ put_le32 h.stream_id))
send_fixed_header fmt1 h inline =
    put_be24 inline ++ (put_be24 h.message_length ++ (h.message_type ∷ []))
send_fixed_header fmt2 h inline = put_be24 inline
send_fixed_header fmt3 h inline = []

unfoldable pub send_message_header : HeaderType → MessageHeader → Bytes
send_message_header fmt h =
    let field = time_field fmt h in
    let use_ext = leb max_timestamp field in
    let inline = if use_ext then max_timestamp else field in
    send_fixed_header fmt h inline
    ++ (if use_ext || (fmt_code fmt == 3 && h.extended) then put_be32 field else [])

-- What `Send` writes to the connection, none for its error.
unfoldable pub send : Chunk → Option Bytes
send c = elim (send_basic_header c.basic) [
  | some b ↦ some (b ++ (send_message_header c.basic.fmt c.header ++ c.payload))
  | none ↦ none
]
