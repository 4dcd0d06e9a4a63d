-- ===== src/Rtmp/Control/Wire.antt =====
-- Control messages over the wire (librtmp/control_message.go).
use ggmpeg.Prelude.{
  ℕ, suc, ◌%◌, ◌^◌, ◌≤◌, ◌<◌, ◌≡◌, refl, ◌↔◌, ◌⊎◌, true, none, some, [], ◌∷◌, ◌++◌, append-nil,
  arith, length, Bytes, put_be32,
}
use ggmpeg.Rtmp.Reader.{Reader, Parses}
use ggmpeg.Rtmp.Chunk.{fmt0, ChunkState, new_chunk, chunk_size, parse_chunk}
use ggmpeg.Rtmp.Chunk.Header.{IsSent}
use ggmpeg.Rtmp.Chunk.Send.{keep, parse_chunk-fmt0}
use ggmpeg.Rtmp.Message.{collect, start_message, append, remain_of, is_message_type}
use ggmpeg.Rtmp.Message.Steps.{message, sent_header, send_total, collect-last, done_whole}
use ggmpeg.Rtmp.Control.{
  ControlMessage, set_chunk_size, abort, acknowledgement, user_control, window_acknowledge_size,
  set_peer_bandwidth, message_type_of, parsed, panicked, parse_control, control_payload, csid_of,
  send_control,
}

-- The fields of a message that its payload carries in full.
pub data IsPlain : ControlMessage → Type 0 where
  chunk_size_plain : {n : ℕ} → n < 2 ^ 32 → IsPlain (set_chunk_size n)
  abort_plain : {n : ℕ} → n < 2 ^ 32 → IsPlain (abort n)
  acknowledgement_plain : {n : ℕ} → n < 2 ^ 32 → IsPlain (acknowledgement n)
  window_plain : {n : ℕ} → n < 2 ^ 32 → IsPlain (window_acknowledge_size n)
  bandwidth_plain : {n l : ℕ} → n < 2 ^ 32 → l < 2 ^ 8 → IsPlain (set_peer_bandwidth n l)

plain_payload :
    (stream : ℕ) (m : ControlMessage)
    → IsPlain m
    → (b : Bytes) × (control_payload stream m ≡ some b)
      × (parse_control (message_type_of m) b ≡ parsed m)
      × (0 < length b)
      × (length b ≤ 5)
unfolding control_payload parse_control
plain_payload stream (set_chunk_size n) (chunk_size_plain h) =
    (put_be32 n, refl, ground arith, omega arith, omega arith)
plain_payload stream (abort n) (abort_plain h) =
    (put_be32 n, refl, ground arith, omega arith, omega arith)
plain_payload stream (acknowledgement n) (acknowledgement_plain h) =
    (put_be32 n, refl, ground arith, omega arith, omega arith)
plain_payload stream (window_acknowledge_size n) (window_plain h) =
    (put_be32 n, refl, ground arith, omega arith, omega arith)
plain_payload stream (set_peer_bandwidth n l) (bandwidth_plain h k) =
    (put_be32 n ++ ((l % 256) ∷ []), refl, ground arith, omega arith, omega arith)
plain_payload stream (user_control _ _) h = elim h [ ]

plain_type :
    (m : ControlMessage)
    → IsPlain m
    → (is_message_type (message_type_of m) ≡ true)
      × (message_type_of m < 2 ^ 8)
      × (2 < csid_of m)
      × (csid_of m < 320)
unfolding is_message_type
plain_type (set_chunk_size n) h = (refl, omega arith, omega arith, omega arith)
plain_type (abort n) h = (refl, omega arith, omega arith, omega arith)
plain_type (acknowledgement n) h = (refl, omega arith, omega arith, omega arith)
plain_type (window_acknowledge_size n) h = (refl, omega arith, omega arith, omega arith)
plain_type (set_peer_bandwidth n l) h = (refl, omega arith, omega arith, omega arith)
plain_type (user_control _ _) h = elim h [ ]

whole_chunk : (max len : ℕ) → len ≤ max → chunk_size none max len ≡ len
unfolding chunk_size
whole_chunk max len h = ground arith

module _ (R : Reader) where
  -- A control message other than a user control message, sent in one chunk with its fields within
  -- their widths, is what the receiver assembles and parses, if its chunk size is at least 5; one
  -- round of the loop is enough.
  pub parse_control-send_control :
      (n time stream : ℕ) (s : ChunkState) (m : ControlMessage)
      → IsPlain m
      → time < 2 ^ 32
      → 5 ≤ s.peer_max_chunk_size
      → (xs b : Bytes) × (s1 : ChunkState) × (send_control time stream m ≡ some xs)
        × Parses R (collect R (suc n) none s) xs (message (message_type_of m) time b b, s1)
        × (parse_control (message_type_of m) b ≡ parsed m)
  unfolding send_control new_chunk start_message append remain_of
  parse_control-send_control n time stream s m h t32 size =
      let (b, e, p, b0, b5) = plain_payload stream m h in
      let (known, t8, c1, c2) = plain_type m h in
      let type = message_type_of m in
      let sent : IsSent (sent_header type (length b) time) = record {
        time_fits = t32;
        length_fits = omega arith;
        type_fits = t8;
        stream_fits = omega arith;
        no_delta = refl;
        extended_lem = refl;
      } in
      let c = new_chunk type (length b) time fmt0 (csid_of m) b in
      let (x, ex) = send_total c c1 in
      let size_eq : chunk_size none s.peer_max_chunk_size (length b) ≡ length b =
        whole_chunk s.peer_max_chunk_size (length b) (omega arith) in
      let pc : Parses R (parse_chunk R none s) x (c, keep c s) =
        parse_chunk-fmt0 R none s (csid_of m) (sent_header type (length b) time) b x c2 sent size_eq
          ex in
      let start : start_message none c ≡ some (message type time b []) = rw known refl in
      let got =
        collect-last R n none s (keep c s) c (message type time b []) x pc start
          (done_whole type time b) in
      (x, b, keep c s, rw (e, send_control) ex, rw append-nil at got, p)

-- Parsing panics exactly for a SetChunkSize or a WindowAcknowledgementSize of less than four bytes.
pub parse_control_panics :
    (type : ℕ) (b : Bytes)
    → (parse_control type b ≡ panicked) ↔ ((type ≡ 1 ⊎ type ≡ 5) × (length b < 4))
unfolding parse_control
parse_control_panics type b = (λ e. ground arith, λ h. ground arith)
