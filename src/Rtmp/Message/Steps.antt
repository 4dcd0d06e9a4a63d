-- ===== src/Rtmp/Message/Steps.antt =====
-- One step of the loops that send and that receive a message (librtmp/message.go, video.go,
-- audio.go).
use ggmpeg.Prelude.{
  ℕ, zero, suc, ◌+◌, ◌-◌, ◌*◌, ◌^◌, ◌≤◌, ◌<◌, ◌≡◌, refl, ap, inl, inr, true, false, not, Option,
  none, some, List, [], ◌∷◌, ◌++◌, arith, ltb, leb, ◌==◌, if◌then◌else◌, Option-cases, length, take,
  drop, length-take, Bytes,
}
use ggmpeg.Rtmp.Reader.{Reader, Parses, Parses-pure, Parses->>=}
use ggmpeg.Rtmp.Chunk.{
  HeaderType, fmt0, fmt3, MessageHeader, Chunk, ChunkState, find_chunk, store_chunk, chunk_size,
  parse_chunk, new_chunk, send_basic_header, send, max_timestamp,
}
use ggmpeg.Rtmp.Message.{
  MessageBase, remain, done, append, start_message, remain_of, collect, slice, send_loop,
}
use ggmpeg.Rtmp.Message.Slices.{length-slice}

pub find_chunk-store_chunk :
    (k : ℕ) (c : Chunk) (m : List (ℕ × Chunk)) → find_chunk k (store_chunk k c m) ≡ some c
unfolding find_chunk store_chunk
find_chunk-store_chunk k c [] = ground arith
find_chunk-store_chunk k c ((j, d) ∷ m) = ground (arith, find_chunk-store_chunk k c m)

pub send_total : (c : Chunk) → 2 < c.basic.csid → (xs : Bytes) × (send c ≡ some xs)
unfolding send send_basic_header
send_total c h = elim (Option-cases (send c)) [ inl e ↦ absurd (ground arith) | inr p ↦ p ]

pub send_loop-more :
    (n i size type time csid : ℕ) (b x xs : Bytes) (fmt : HeaderType)
    → (if not (i == 0) then fmt3 else fmt0) ≡ fmt
    → i * size < length b
    → send (
        new_chunk type (length b) time fmt csid (
          slice
            (i * size)
            (if ltb (length b) (i * size + size) then length b else i * size + size)
            b))
      ≡ some x
    → send_loop n (suc i) size type time csid b ≡ some xs
    → send_loop (suc n) i size type time csid b ≡ some (x ++ xs)
unfolding send_loop
send_loop-more n i size type time csid b x xs fmt e h p q =
    let k : leb (length b) (i * size) ≡ false = ground arith in rw (e, k, p, q) refl

-- The header that every chunk of a message is built with, and the message after `p` of it.
abbrev pub sent_header : ℕ → ℕ → ℕ → MessageHeader
sent_header type len time = record {
  timestamp = time;
  delta = 0;
  message_length = len;
  message_type = type;
  stream_id = 0;
  extended = leb max_timestamp time;
}

abbrev pub message : ℕ → ℕ → Bytes → Bytes → MessageBase
message type time b p = record {
  time = time;
  message_length = length b;
  message_type = type;
  stream_id = 0;
  payload = p;
}

pub done_whole : (type time : ℕ) (b : Bytes) → done (message type time b b) ≡ true
unfolding done remain
done_whole type time b = ground arith

pub done_part :
    (type time l : ℕ) (b : Bytes)
    → l < length b
    → length b < 2 ^ 32
    → done (message type time b (take l b)) ≡ false
unfolding done remain
done_part type time l b h k = ground (arith, length-take l b)

-- The size that the receiver reads is the one that is sent.
pub chunk_size_last :
    (size max l type time : ℕ) (b : Bytes)
    → length b < 2 ^ 24
    → length b ≤ l + size
    → max ≡ size
    → l < length b
    → chunk_size (some (remain (message type time b (take l b)))) max (length b)
      ≡ length (slice l (length b) b)
unfolding chunk_size remain
chunk_size_last size max l type time b h le m lt =
    ground (arith, length-slice l (length b) b (omega arith) (omega arith), length-take l b)

pub chunk_size_more :
    (size max l type time : ℕ) (b : Bytes)
    → length b < 2 ^ 24
    → max ≡ size
    → l + size ≤ length b
    → chunk_size (some (remain (message type time b (take l b)))) max (length b)
      ≡ length (slice l (l + size) b)
unfolding chunk_size remain
chunk_size_more size max l type time b h m le =
    ground (arith, length-slice l (l + size) b (omega arith) (omega arith), length-take l b)

pub send_loop_end :
    (n i size type time csid : ℕ) (b : Bytes)
    → length b ≤ i * size
    → 0 < n
    → send_loop n i size type time csid b ≡ some []
unfolding send_loop
send_loop_end zero i size type time csid b h k = absurd (omega arith)
send_loop_end (suc n) i size type time csid b h k =
    let e : leb (length b) (i * size) ≡ true = ground arith in rw e refl

pub slice_first : (l r : ℕ) (b : Bytes) → l ≡ 0 → slice l r b ≡ take r b
unfolding slice
slice_first l r b h =
    let e : r - l ≡ r = omega arith in
    let e1 : drop l b ≡ drop 0 b = ap (λ k. drop k b) h in rw (e, e1) refl

pub chunk_size_first :
    (size max l r : ℕ) (b : Bytes)
    → max ≡ size
    → l ≡ 0
    → (if ltb (length b) (l + size) then length b else l + size) ≡ r
    → chunk_size none max (length b) ≡ length (slice l r b)
unfolding chunk_size
chunk_size_first size max l r b m h e =
    ground (arith, length-slice l r b (omega arith) (ground arith))

module _ (R : Reader) where
  pub collect-last :
      (n : ℕ) (m : Option MessageBase) (s s1 : ChunkState) (c : Chunk) (m1 : MessageBase)
      (x : Bytes)
      → Parses R (parse_chunk R (remain_of m) s) x (c, s1)
      → start_message m c ≡ some m1
      → done (append c m1) ≡ true
      → Parses R (collect R (suc n) m s) (x ++ []) (append c m1, s1)
  unfolding collect
  collect-last n m s s1 c m1 x p e d =
      Parses->>= R _ _ x [] (c, s1) _ p (rw (e, d) (Parses-pure R _))

  pub collect-more :
      (n : ℕ) (m : Option MessageBase) (s s1 : ChunkState) (c : Chunk) (m1 : MessageBase)
      (x xs : Bytes) (res : MessageBase × ChunkState)
      → Parses R (parse_chunk R (remain_of m) s) x (c, s1)
      → start_message m c ≡ some m1
      → done (append c m1) ≡ false
      → Parses R (collect R n (some (append c m1)) s1) xs res
      → Parses R (collect R (suc n) m s) (x ++ xs) res
  unfolding collect
  collect-more n m s s1 c m1 x xs res p e d q = Parses->>= R _ _ x xs (c, s1) res p (rw (e, d) q)
