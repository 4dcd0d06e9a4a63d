-- ===== src/Rtmp/Chunk/Header.antt =====
-- Parsing the headers that a chunk is sent with (librtmp/chunk.go).
use ggmpeg.Prelude.{
  ℕ, ◌+◌, ◌-◌, ◌*◌, ◌/◌, ◌%◌, ◌^◌, ◌≤◌, ◌<◌, ◌≡◌, refl, sym, inl, inr, Bool, true, false, some,
  List, [], ◌∷◌, arith, ltb, leb, ◌==◌, if◌then◌else◌, Bool-cases, Option-cases, Bytes, put_be16,
  put_be32, be24_at, be32_at,
}
use ggmpeg.Rtmp.Reader
use ggmpeg.Rtmp.Reader.{
  Reader, Parser, read, pure, fail, Parses, Parses-read, Parses-pure, Parses->>=,
}
use ggmpeg.Rtmp.Chunk.{
  HeaderType, fmt0, fmt1, fmt2, fmt3, fmt_of, fmt_code, BasicHeader, MessageHeader, Chunk,
  find_chunk, header0, header3, extend, accumulate, fixed_header, parse_basic_header,
  parse_message_header, send_basic_header, time_field, send_fixed_header, send_message_header,
  max_timestamp,
}

fmt_of-fmt_code :
    (fmt : HeaderType) (n : ℕ) → fmt_of ((fmt_code fmt * 2 ^ 6 + n % 2 ^ 6) / 2 ^ 6 % 2 ^ 2) ≡ fmt
fmt_of-fmt_code fmt0 n = ground arith
fmt_of-fmt_code fmt1 n = ground arith
fmt_of-fmt_code fmt2 n = ground arith
fmt_of-fmt_code fmt3 n = ground arith

fmt_of_top : (fmt : HeaderType) → fmt_of (fmt_code fmt * 2 ^ 6 / 2 ^ 6 % 2 ^ 2) ≡ fmt
fmt_of_top fmt0 = refl
fmt_of_top fmt1 = refl
fmt_of_top fmt2 = refl
fmt_of_top fmt3 = refl

-- A header as NewChunk builds it: no delta, an extended timestamp where it is needed, and fields of
-- their widths.
pub record IsSent (h : MessageHeader) : Type 0 where
  pub time_fits : h.timestamp < 2 ^ 32
  pub length_fits : h.message_length < 2 ^ 24
  pub type_fits : h.message_type < 2 ^ 8
  pub stream_fits : h.stream_id < 2 ^ 32
  pub no_delta : h.delta ≡ 0
  pub extended_lem : h.extended ≡ leb max_timestamp h.timestamp

module _ (R : Reader) where
  infixl 5 ◌>>=◌
  abbrev ◌>>=◌ : {A B : Type 0} → Parser R A → (A → Parser R B) → Parser R B
  m >>= f = Reader.◌>>=◌ R m f

  basic_short :
      (fmt : HeaderType) (csid : ℕ)
      → 2 < csid
      → csid < 64
      → Parses R
          (parse_basic_header R)
          ((fmt_code fmt * 2 ^ 6 + csid % 2 ^ 6) ∷ [])
          (record { fmt = fmt; csid = csid })
  unfolding parse_basic_header
  basic_short fmt csid h k =
      let x = fmt_code fmt * 2 ^ 6 + csid % 2 ^ 6 in
      let e1 : x % 2 ^ 6 ≡ csid = omega arith in
      let e2 : fmt_of (x / 2 ^ 6 % 2 ^ 2) ≡ fmt = fmt_of-fmt_code fmt csid in
      let e3 : (csid == 0) ≡ false = ground arith in
      let e4 : (csid == 1) ≡ false = ground arith in
      Parses->>= R _ _ (x ∷ []) [] (x ∷ []) _ (Parses-read R 1 (x ∷ []) refl)
        (rw (e1, e2, e3, e4) (Parses-pure R _))

  basic_long :
      (fmt : HeaderType) (csid : ℕ)
      → 64 ≤ csid
      → csid < 320
      → Parses R
          (parse_basic_header R)
          ((fmt_code fmt * 2 ^ 6) ∷ ((csid - 64) % 256) ∷ [])
          (record { fmt = fmt; csid = csid })
  unfolding parse_basic_header
  basic_long fmt csid h k =
      let x = fmt_code fmt * 2 ^ 6 in
      let y = (csid - 64) % 256 in
      let e1 : x % 2 ^ 6 ≡ 0 = omega arith in
      let e2 : fmt_of (x / 2 ^ 6 % 2 ^ 2) ≡ fmt = fmt_of_top fmt in
      let e3 : y + 64 ≡ csid = omega arith in
      Parses->>= R _ _ (x ∷ []) (y ∷ []) (x ∷ []) _ (Parses-read R 1 (x ∷ []) refl) (
        rw (e1, e2)
          (Parses->>= R _ _ (y ∷ []) [] (y ∷ []) _ (Parses-read R 1 (y ∷ []) refl)
            (rw e3 (Parses-pure R _))))

  -- The one and the two byte form of the basic header.
  pub parse_basic_header-send_basic_header :
      (b : BasicHeader) (xs : Bytes)
      → b.csid < 320
      → send_basic_header b ≡ some xs
      → Parses R (parse_basic_header R) xs b
  unfolding send_basic_header
  parse_basic_header-send_basic_header b xs h e = elim (Bool-cases (ltb b.csid 3)) [
    | inl e1 ↦ cc
    | inr e1 ↦ elim (Bool-cases (ltb b.csid 64)) [
      | inl e2 ↦
          (let eq : (fmt_code b.fmt * 2 ^ 6 + b.csid % 2 ^ 6) ∷ [] ≡ xs = ground arith in
            rw (sym eq) (basic_short b.fmt b.csid (ground arith) (ground arith)))
      | inr e2 ↦
          (let eq : (fmt_code b.fmt * 2 ^ 6) ∷ ((b.csid - 64) % 256) ∷ [] ≡ xs = ground arith in
            rw (sym eq) (basic_long b.fmt b.csid (ground arith) h))
    ]
  ]

  swapped :
      (fmt : HeaderType) (csid n : ℕ)
      → n ≡ (csid - 64) % 2 ^ 16
      → Parses R
          (parse_basic_header R)
          ((fmt_code fmt * 2 ^ 6 + 1) ∷ put_be16 n)
          (record { fmt = fmt; csid = n / 256 + n % 256 * 256 + 64 })
  unfolding parse_basic_header
  swapped fmt csid n k =
      let x = fmt_code fmt * 2 ^ 6 + 1 in
      let e1 : x % 2 ^ 6 ≡ 1 = omega arith in
      let e2 : fmt_of (x / 2 ^ 6 % 2 ^ 2) ≡ fmt = fmt_of-fmt_code fmt 1 in
      let e3 : n / 256 % 256 ≡ n / 256 = omega arith in
      Parses->>= R _ _ (x ∷ []) (put_be16 n) (x ∷ []) _ (Parses-read R 1 (x ∷ []) refl) (
        rw (e1, e2)
          (Parses->>= R _ _ (put_be16 n) [] (put_be16 n) _ (Parses-read R 2 (put_be16 n) refl)
            (rw e3 (Parses-pure R _))))

  -- The three byte form, which Send writes for a csid of 320 and more, holds csid - 64 modulo 2 ^ 16
  -- and arrives with its two bytes exchanged: written in big endian, it is read in little endian.
  pub parse_basic_header-swapped :
      (b : BasicHeader) (xs : Bytes)
      → 320 ≤ b.csid
      → send_basic_header b ≡ some xs
      → let n = (b.csid - 64) % 2 ^ 16 in
        Parses R
          (parse_basic_header R)
          xs
          (record { fmt = b.fmt; csid = n / 256 + n % 256 * 256 + 64 })
  unfolding send_basic_header
  parse_basic_header-swapped b xs h e =
      let eq : (fmt_code b.fmt * 2 ^ 6 + 1) ∷ put_be16 ((b.csid - 64) % 2 ^ 16) ≡ xs =
        ground arith in
      rw (sym eq) (swapped b.fmt b.csid ((b.csid - 64) % 2 ^ 16) refl)

  Parses-to : {A : Type 0} (a b : A) → a ≡ b → Parses R (pure R a) [] b
  Parses-to a b e = rw e (Parses-pure R b)

  complete0 :
      (h : MessageHeader)
      → IsSent h
      → Parses R
          (read R 11 >>= λ b.
            (let (h', raw) = header0 b in
              if raw == max_timestamp
              then (read R 4 >>= λ b4. pure R (extend fmt0 h' (be32_at b4 0)))
              else pure R h'))
          (send_message_header fmt0 h)
          h
  unfolding header0 extend send_message_header send_fixed_header time_field
  complete0 h f = elim (Bool-cases (leb max_timestamp h.timestamp)) [
    | inl e ↦ rw e (
        let xs = send_fixed_header fmt0 h max_timestamp in
        Parses->>= R _ _ xs (put_be32 h.timestamp) xs _ (Parses-read R 11 xs refl) (
          Parses->>= R _ _ (put_be32 h.timestamp) [] (put_be32 h.timestamp) _
            (Parses-read R 4 (put_be32 h.timestamp) refl) (Parses-to _ h (ground arith))))
    | inr e ↦ rw e (
        let xs = send_fixed_header fmt0 h h.timestamp in
        let eq : be24_at xs 0 ≡ h.timestamp = ground arith in
        let ne : (be24_at xs 0 == max_timestamp) ≡ false = ground arith in
        Parses->>= R _ _ xs [] xs _ (Parses-read R 11 xs refl)
          (rw ne (Parses-to _ h (ground arith))))
  ]

  -- FMT0 leaves the last chunk of the stream aside.
  pub parse_message_header-fmt0 :
      (chunks : List (ℕ × Chunk)) (csid : ℕ) (first : Bool) (h : MessageHeader)
      → IsSent h
      → Parses R
          (parse_message_header R chunks (record { fmt = fmt0; csid = csid }) first)
          (send_message_header fmt0 h)
          h
  unfolding parse_message_header fixed_header accumulate
  parse_message_header-fmt0 chunks csid first h f = elim (Option-cases (find_chunk csid chunks)) [
    | inl e ↦ rw (e, parse_message_header) (complete0 h f)
    | inr (c, e) ↦ rw (e, parse_message_header) (complete0 h f)
  ]

  complete3 :
      (t d l m i : ℕ) (ext : Bool)
      → t < 2 ^ 32
      → ext ≡ leb max_timestamp t
      → let h : MessageHeader = record {
        timestamp = t;
        delta = d;
        message_length = l;
        message_type = m;
        stream_id = i;
        extended = ext;
      } in
        Parses R
          (pure R {A = Bytes} [] >>= λ b.
            (let (h', raw) = header3 h in
              if raw == max_timestamp
              then (read R 4 >>= λ b4. pure R (extend fmt3 h' (be32_at b4 0)))
              else pure R h'))
          (send_message_header fmt3 h)
          h
  unfolding header3 extend send_message_header send_fixed_header time_field
  complete3 t d l m i true k e =
      let xs = put_be32 t in
      rw (sym e)
        (Parses->>= R _ (λ b4. pure R _) xs [] xs _ (Parses-read R 4 xs refl) (Parses-pure R _))
  complete3 t d l m i false k e = rw (sym e) (Parses-pure R _)

  -- FMT3 in the middle of a message takes over the last header, and an extended timestamp with it.
  pub parse_message_header-fmt3 :
      (chunks : List (ℕ × Chunk)) (csid : ℕ) (c : Chunk)
      → IsSent c.header
      → find_chunk csid chunks ≡ some c
      → Parses R
          (parse_message_header R chunks (record { fmt = fmt3; csid = csid }) false)
          (send_message_header fmt3 c.header)
          c.header
  unfolding parse_message_header fixed_header accumulate
  parse_message_header-fmt3 chunks csid c f e =
      rw (e, parse_message_header)
        (complete3 c.header.timestamp c.header.delta c.header.message_length c.header.message_type
          c.header.stream_id c.header.extended f.time_fits f.extended_lem)
