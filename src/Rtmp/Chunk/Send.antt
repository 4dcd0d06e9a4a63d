-- ===== src/Rtmp/Chunk/Send.antt =====
-- Parsing a chunk that was sent (librtmp/chunk.go).
use ggmpeg.Prelude.{
  ℕ, ◌<◌, ◌≡◌, sym, inl, inr, Option, some, [], ◌++◌, append-nil, arith, Option-cases, length,
  Bytes,
}
use ggmpeg.Rtmp.Reader
use ggmpeg.Rtmp.Reader.{
  Reader, Parser, read, pure, fail, Parses, Parses-read, Parses-pure, Parses->>=,
}
use ggmpeg.Rtmp.Chunk.{
  fmt0, fmt3, MessageHeader, Chunk, ChunkState, find_chunk, store_chunk, is_none, chunk_size,
  parse_basic_header, parse_message_header, parse_chunk, send_basic_header, send_message_header,
  send,
}
use ggmpeg.Rtmp.Chunk.Header.{
  IsSent, parse_basic_header-send_basic_header, parse_message_header-fmt0,
  parse_message_header-fmt3,
}

-- The state after a chunk.
abbrev pub keep : Chunk → ChunkState → ChunkState
keep c s = record s { last_chunk = store_chunk c.basic.csid c s.last_chunk }

module _ (R : Reader) where
  infixl 5 ◌>>=◌
  abbrev ◌>>=◌ : {A B : Type 0} → Parser R A → (A → Parser R B) → Parser R B
  m >>= f = Reader.◌>>=◌ R m f

  Parses-last :
      {A : Type 0} (n : ℕ) (xs : Bytes) (f : Bytes → A)
      → n ≡ length xs
      → Parses R (read R n >>= λ b. pure R (f b)) xs (f xs)
  Parses-last n xs f e =
      let p : Parses R (read R n >>= λ b. pure R (f b)) (xs ++ []) (f xs) =
        Parses->>= R _ _ xs [] xs _ (Parses-read R n xs e) (Parses-pure R (f xs)) in
      rw append-nil at p

  parse_chunk_with :
      (remain : Option ℕ) (s : ChunkState) (c : Chunk) (b m : Bytes)
      → Parses R (parse_basic_header R) b c.basic
      → Parses R (parse_message_header R s.last_chunk c.basic (is_none remain)) m c.header
      → chunk_size remain s.peer_max_chunk_size c.header.message_length ≡ length c.payload
      → Parses R (parse_chunk R remain s) (b ++ (m ++ c.payload)) (c, keep c s)
  unfolding parse_chunk
  parse_chunk_with remain s c b m pb pm e = Parses->>= R _ _ b (m ++ c.payload) c.basic _ pb (
      Parses->>= R _ _ m c.payload c.header _ pm (
        Parses-last _ c.payload
          (λ b. (
            record { basic = c.basic; header = c.header; payload = b },
            keep (record { basic = c.basic; header = c.header; payload = b }) s,
          ))
          e))

  -- The first chunk of a message: FMT0.
  pub parse_chunk-fmt0 :
      (remain : Option ℕ) (s : ChunkState) (csid : ℕ) (h : MessageHeader) (b xs : Bytes)
      → csid < 320
      → IsSent h
      → chunk_size remain s.peer_max_chunk_size h.message_length ≡ length b
      → let c : Chunk = record {
        basic = record { fmt = fmt0; csid = csid };
        header = h;
        payload = b;
      } in
        send c ≡ some xs → Parses R (parse_chunk R remain s) xs (c, keep c s)
  unfolding send
  parse_chunk-fmt0 remain s csid h b xs k f e q =
      elim (Option-cases (send_basic_header (record { fmt = fmt0; csid = csid }))) [
        | inl none_lem ↦ ground arith
        | inr (x, e1) ↦
            (let eq : x ++ (send_message_header fmt0 h ++ b) ≡ xs = ground arith in
              rw (sym eq) (
                parse_chunk_with remain s _ x _ (parse_basic_header-send_basic_header R _ x k e1)
                  (parse_message_header-fmt0 R s.last_chunk csid (is_none remain) h f) e))
      ]

  -- A later chunk of a message: FMT3, after a chunk of the same header.
  pub parse_chunk-fmt3 :
      (r : ℕ) (s : ChunkState) (csid : ℕ) (last : Chunk) (b xs : Bytes)
      → csid < 320
      → IsSent last.header
      → find_chunk csid s.last_chunk ≡ some last
      → chunk_size (some r) s.peer_max_chunk_size last.header.message_length ≡ length b
      → let c : Chunk = record {
        basic = record { fmt = fmt3; csid = csid };
        header = last.header;
        payload = b;
      } in
        send c ≡ some xs → Parses R (parse_chunk R (some r) s) xs (c, keep c s)
  unfolding send is_none
  parse_chunk-fmt3 r s csid last b xs k f found e q =
      elim (Option-cases (send_basic_header (record { fmt = fmt3; csid = csid }))) [
        | inl none_lem ↦ ground arith
        | inr (x, e1) ↦
            (let eq : x ++ (send_message_header fmt3 last.header ++ b) ≡ xs = ground arith in
              rw (sym eq) (
                parse_chunk_with (some r) s _ x _ (parse_basic_header-send_basic_header R _ x k e1)
                  (parse_message_header-fmt3 R s.last_chunk csid last f found) e))
      ]
