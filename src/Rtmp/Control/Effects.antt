-- ===== src/Rtmp/Control/Effects.antt =====
-- What handling a control message changes (librtmp/control_message.go).
use ggmpeg.Prelude.{
  ℕ, ◌-◌, ◌≤◌, ◌≡◌, refl, sym, ◌≢◌, true, none, some, List, [], ◌∷◌, arith, leb, length, take, drop,
  length-take, length-drop, take_whole, Bytes,
}
use ggmpeg.Rtmp.Chunk.{Chunk, find_chunk}
use ggmpeg.Rtmp.Control.{
  ControlMessage, abort, user_control, ping_request, ping_response, Connection, delete_chunk,
  do_control, user_payload, control_payload, parsed, parse_control,
}

find_chunk-delete_chunk : (k : ℕ) (m : List (ℕ × Chunk)) → find_chunk k (delete_chunk k m) ≡ none
unfolding find_chunk delete_chunk
find_chunk-delete_chunk k [] = refl
find_chunk-delete_chunk k ((j, c) ∷ m) = ground (arith, find_chunk-delete_chunk k m)

find_chunk-delete_other :
    (k n : ℕ) (m : List (ℕ × Chunk)) → k ≢ n → find_chunk k (delete_chunk n m) ≡ find_chunk k m
unfolding find_chunk delete_chunk
find_chunk-delete_other k n [] h = refl
find_chunk-delete_other k n ((j, c) ∷ m) h = ground (arith, find_chunk-delete_other k n m h)

-- An abort message forgets the chunk stream that it names, and no other, and changes nothing else
-- of the chunk state.
pub do_control-abort :
    (n : ℕ) (c : Connection)
    → let chunks = (do_control (abort n) c).0.chunks in
      (find_chunk n chunks.last_chunk ≡ none)
      × ((k : ℕ) → k ≢ n → find_chunk k chunks.last_chunk ≡ find_chunk k c.chunks.last_chunk)
      × (chunks.peer_max_chunk_size ≡ c.chunks.peer_max_chunk_size)
unfolding do_control
do_control-abort n c = (
  find_chunk-delete_chunk n c.chunks.last_chunk,
  λ k h. find_chunk-delete_other k n c.chunks.last_chunk h,
  refl,
)

-- A ping request with at least four bytes of data is answered with a ping response that carries the first
-- four of them, and the connection stays as it is.
pub do_control-ping :
    (stream : ℕ) (b b4 : Bytes) (c : Connection)
    → parse_control 4 b ≡ parsed (user_control ping_request b4)
    → 6 ≤ length b
    → (reply : ControlMessage) × (do_control (user_control ping_request b4) c ≡ (c, some reply))
      × (control_payload stream reply ≡ some (0 ∷ 7 ∷ take 4 (drop 2 b)))
unfolding do_control control_payload user_payload parse_control
do_control-ping stream b b4 c e h =
    let eq : drop 2 b ≡ b4 = ground arith in
    let len : length b4 ≡ length b - 2 = rw (sym eq) (length-drop 2 b) in
    let k : leb 4 (length b4) ≡ true = ground arith in
    let k4 : leb 4 (length (take 4 b4)) ≡ true = ground (arith, length-take 4 b4) in
    let short : length (take 4 b4) ≤ 4 = omega (arith, length-take 4 b4) in
    (
      user_control ping_response (take 4 b4),
      rw k refl,
      rw (k4, take_whole (take 4 b4) 4 short, eq) refl,
    )
