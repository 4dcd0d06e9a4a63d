-- ===== src/Rtmp/Message/RoundTrip.antt =====
-- Sending a message in chunks and assembling it (librtmp/message.go, video.go, audio.go).
use ggmpeg.Prelude.{
  ℕ, zero, suc, ◌+◌, ◌*◌, ◌^◌, ◌<◌, ◌≡◌, refl, sym, ap, ◌∙◌, inl, inr, true, false, none, some, [],
  ◌++◌, arith, ltb, if◌then◌else◌, Bool-cases, length, take, take_whole, Bytes,
}
use ggmpeg.Rtmp.Reader.{Reader, Parses}
use ggmpeg.Rtmp.Chunk.{HeaderType, fmt0, fmt3, ChunkState, find_chunk, parse_chunk, new_chunk}
use ggmpeg.Rtmp.Chunk.Header.{IsSent}
use ggmpeg.Rtmp.Chunk.Send.{keep, parse_chunk-fmt0, parse_chunk-fmt3}
use ggmpeg.Rtmp.Message.{
  is_message_type, remain, done, append, start_message, remain_of, collect, slice, send_loop,
  send_message,
}
use ggmpeg.Rtmp.Message.Slices.{take-slice}
use ggmpeg.Rtmp.Message.Steps.{
  find_chunk-store_chunk, send_total, send_loop-more, sent_header, message, done_whole, done_part,
  chunk_size_last, chunk_size_more, send_loop_end, slice_first, chunk_size_first, collect-last,
  collect-more,
}

module _ (R : Reader) where
  -- The chunks after the first one.
  send_rest :
      (n i size type time csid : ℕ) (s : ChunkState) (b p : Bytes) (fmt : HeaderType)
      → 0 < i
      → 0 < size
      → 2 < csid
      → csid < 320
      → IsSent (sent_header type (length b) time)
      → i * size < length b
      → length b < i * size + n
      → s.peer_max_chunk_size ≡ size
      → find_chunk csid s.last_chunk ≡ some (new_chunk type (length b) time fmt csid p)
      → (xs : Bytes) × (s1 : ChunkState) × (send_loop n i size type time csid b ≡ some xs)
        × Parses R
            (collect R n (some (message type time b (take (i * size) b))) s)
            xs
            (message type time b b, s1)
  unfolding new_chunk start_message append remain_of
  send_rest zero i size type time csid s b p fmt i0 size0 c1 c2 h lt fuel max found =
      absurd (omega arith)
  send_rest (suc n) i size type time csid s b p fmt i0 size0 c1 c2 h lt fuel max found =
      let l = i * size in
      let len = length b in
      let l1 : suc i * size ≡ l + size = omega arith in
      let m = message type time b (take l b) in
      elim (Bool-cases (ltb (l + size) len)) [
        | inl e ↦
            (let r_eq : (if ltb len (l + size) then len else l + size) ≡ l + size = ground arith in
              let part = slice l (l + size) b in
              let c = new_chunk type len time fmt3 csid part in
              let (x, ex) = send_total c c1 in
              let size_eq =
                chunk_size_more size s.peer_max_chunk_size l type time b h.length_fits max
                  (ground arith) in
              let pc : Parses R (parse_chunk R (some (remain m)) s) x (c, keep c s) =
                parse_chunk-fmt3 R (remain m) s csid (new_chunk type len time fmt csid p) part x c2
                  h found size_eq ex in
              let more : append c m ≡ message type time b (take (suc i * size) b) =
                ap (message type time b)
                  (take-slice l (l + size) b (omega arith) ∙ ap (λ k. take k b) (sym l1)) in
              let d : done (append c m) ≡ false =
                rw more (done_part type time (suc i * size) b (ground arith) (omega arith)) in
              let (xs, s1, sl, got) =
                send_rest n (suc i) size type time csid (keep c s) b part fmt3 (omega arith) size0
                  c1 c2 h (ground arith) (omega arith) max
                  (find_chunk-store_chunk csid c s.last_chunk) in
              let all =
                collect-more R n (some m) s (keep c s) c m x xs (message type time b b, s1) pc refl
                  d (rw more got) in
              (
                x ++ xs,
                s1,
                send_loop-more n i size type time csid b x xs fmt3 (ground arith) lt (rw r_eq ex)
                    sl,
                all,
              ))
        | inr e ↦
            (let r_eq : (if ltb len (l + size) then len else l + size) ≡ len = ground arith in
              let part = slice l len b in
              let c = new_chunk type len time fmt3 csid part in
              let (x, ex) = send_total c c1 in
              let size_eq =
                chunk_size_last size s.peer_max_chunk_size l type time b h.length_fits
                  (ground arith) max lt in
              let pc : Parses R (parse_chunk R (some (remain m)) s) x (c, keep c s) =
                parse_chunk-fmt3 R (remain m) s csid (new_chunk type len time fmt csid p) part x c2
                  h found size_eq ex in
              let whole : append c m ≡ message type time b b =
                ap (message type time b)
                  (take-slice l len b (omega arith) ∙ take_whole b len (omega arith)) in
              let d : done (append c m) ≡ true = rw whole (done_whole type time b) in
              let got : Parses R (collect R (suc n) (some m) s) (x ++ []) (append c m, keep c s) =
                collect-last R n (some m) s (keep c s) c m x pc refl d in
              let sl =
                send_loop-more n i size type time csid b x [] fmt3 (ground arith) lt (rw r_eq ex)
                  (send_loop_end n (suc i) size type time csid b (ground arith) (ground arith)) in
              (x ++ [], keep c s, sl, rw whole at got))
      ]

  -- Send splits a message of an accepted type that is not empty into chunks, and the loop of
  -- ParseMessage, on a connection where those bytes come next, takes just them and returns the
  -- message with its time, type and payload: if the chunk stream is from 3 to 319, the receiver's
  -- chunk size is the sender's and positive, and the fields have their widths. The fuel is the
  -- payload's length and one.
  pub collect-send_message :
      (size type time csid : ℕ) (s : ChunkState) (b : Bytes)
      → 0 < size
      → 2 < csid
      → csid < 320
      → is_message_type type ≡ true
      → type < 2 ^ 8
      → time < 2 ^ 32
      → 0 < length b
      → length b < 2 ^ 24
      → s.peer_max_chunk_size ≡ size
      → (xs : Bytes) × (s1 : ChunkState) × (send_message size type time csid b ≡ some xs)
        × Parses R (collect R (suc (length b)) none s) xs (message type time b b, s1)
  unfolding new_chunk start_message append remain_of send_message
  collect-send_message size type time csid s b size0 c1 c2 known t8 t32 b0 b24 max =
      let h : IsSent (sent_header type (length b) time) = record {
        time_fits = t32;
        length_fits = b24;
        type_fits = t8;
        stream_fits = omega arith;
        no_delta = refl;
        extended_lem = refl;
      } in
      let len = length b in
      let l = 0 * size in
      let l0 : l ≡ 0 = omega arith in
      let m = message type time b [] in
      elim (Bool-cases (ltb size len)) [
        | inl e ↦
            (let r_eq : (if ltb len (l + size) then len else l + size) ≡ size = ground arith in
              let part = slice l size b in
              let c = new_chunk type len time fmt0 csid part in
              let (x, ex) = send_total c c1 in
              let size_eq = chunk_size_first size s.peer_max_chunk_size l size b max l0 r_eq in
              let pc : Parses R (parse_chunk R none s) x (c, keep c s) =
                parse_chunk-fmt0 R none s csid (sent_header type len time) part x c2 h size_eq ex in
              let start : start_message none c ≡ some m = rw known refl in
              let l1 : 1 * size ≡ size = omega arith in
              let more : append c m ≡ message type time b (take (1 * size) b) =
                ap (message type time b) (slice_first l size b l0 ∙ ap (λ k. take k b) (sym l1)) in
              let d : done (append c m) ≡ false =
                rw more (done_part type time (1 * size) b (ground arith) (omega arith)) in
              let (xs, s1, sl, got) =
                send_rest len 1 size type time csid (keep c s) b part fmt0 (omega arith) size0 c1 c2
                  h (ground arith) (omega arith) max (find_chunk-store_chunk csid c s.last_chunk) in
              let all =
                collect-more R len none s (keep c s) c m x xs (message type time b b, s1) pc start d
                  (rw more got) in
              (
                x ++ xs,
                s1,
                send_loop-more len 0 size type time csid b x xs fmt0 refl (omega arith) (rw r_eq ex)
                    sl,
                all,
              ))
        | inr e ↦
            (let r_eq : (if ltb len (l + size) then len else l + size) ≡ len = ground arith in
              let part = slice l len b in
              let c = new_chunk type len time fmt0 csid part in
              let (x, ex) = send_total c c1 in
              let size_eq = chunk_size_first size s.peer_max_chunk_size l len b max l0 r_eq in
              let pc : Parses R (parse_chunk R none s) x (c, keep c s) =
                parse_chunk-fmt0 R none s csid (sent_header type len time) part x c2 h size_eq ex in
              let start : start_message none c ≡ some m = rw known refl in
              let whole : append c m ≡ message type time b b =
                ap (message type time b)
                  (slice_first l len b l0 ∙ take_whole b len (omega arith)) in
              let d : done (append c m) ≡ true = rw whole (done_whole type time b) in
              let got : Parses R (collect R (suc len) none s) (x ++ []) (append c m, keep c s) =
                collect-last R len none s (keep c s) c m x pc start d in
              let sl =
                send_loop-more len 0 size type time csid b x [] fmt0 refl (omega arith) (rw r_eq ex)
                  (send_loop_end len 1 size type time csid b (ground arith) (omega arith)) in
              (x ++ [], keep c s, sl, rw whole at got))
      ]
