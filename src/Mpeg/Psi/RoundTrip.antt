-- ===== src/Mpeg/Psi/RoundTrip.antt =====
-- A PAT that is written and read again (libmpeg/psi.go).
use ggmpeg.Prelude.{
  ℕ, ◌+◌, ◌-◌, ◌*◌, ◌/◌, ◌%◌, ◌^◌, ◌≤◌, ◌<◌, ◌≡◌, refl, sym, ap, ◌∙◌, Bool, true, false, not, ◌&&◌,
  some, List, [], ◌∷◌, ◌++◌, append-nil, append_assoc, arith, ltb, ◌==◌, length, Bytes, put_be32,
  be32_at,
}
use ggmpeg.Rtmp.Reader
use ggmpeg.Rtmp.Reader.{
  Reader, Parser, read, pure, fail, Parses, Parses-read, Parses-pure, Parses->>=,
}
use ggmpeg.Mpeg.Crc.{crc32}
use ggmpeg.Mpeg.Crc.Bound.{crc32_lt}
use ggmpeg.Mpeg.Psi.{
  Pat, has_pid, add_pid, pat_entries, pat_header, is_section, pat_bytes, pat_entry_bytes, with_crc,
  marshal_pat, parse_pat_section,
}

pub be32_at-put_be32 : (x : ℕ) → x < 2 ^ 32 → be32_at (put_be32 x) 0 ≡ x
be32_at-put_be32 x h = omega arith

-- Programs that a table takes in behind those it has: a number that is not 0, and a PID of 13 bits
-- that is new.
unfoldable pub are_programs : List (ℕ × ℕ) → List (ℕ × ℕ) → Bool
are_programs acc [] = true
are_programs acc ((pid, number) ∷ rest) =
    let more = are_programs (acc ++ ((pid, number) ∷ [])) rest in
    ltb pid (2 ^ 13) && ltb 0 number && ltb number (2 ^ 16) && not (has_pid pid acc) && more

length-pat_entry_bytes : (es : List (ℕ × ℕ)) → length (pat_entry_bytes es) ≡ 4 * length es
unfolding pat_entry_bytes
length-pat_entry_bytes [] = refl
length-pat_entry_bytes ((pid, number) ∷ rest) = omega (arith, length-pat_entry_bytes rest)

pat_entries-pat_entry_bytes :
    (es acc : List (ℕ × ℕ))
    → are_programs acc es ≡ true
    → pat_entries (pat_entry_bytes es) acc ≡ acc ++ es
unfolding pat_entries pat_entry_bytes are_programs add_pid
pat_entries-pat_entry_bytes [] acc h = sym (append-nil acc)
pat_entries-pat_entry_bytes ((pid, number) ∷ rest) acc h =
    let n_lt : number < 2 ^ 16 = ground arith in
    let p_lt : pid < 2 ^ 13 = ground arith in
    let number_back : number / 2 ^ 8 % 256 * 2 ^ 8 + number % 256 ≡ number = omega arith in
    let pid_back : (0xe0 + pid / 2 ^ 8 % 2 ^ 5) % 2 ^ 5 * 2 ^ 8 + pid % 256 ≡ pid = omega arith in
    let some_number : (number == 0) ≡ false = ground arith in
    let new : has_pid pid acc ≡ false = ground arith in
    rw (number_back, pid_back, some_number, new)
      (pat_entries-pat_entry_bytes rest (acc ++ ((pid, number) ∷ [])) (ground arith)
        ∙ append_assoc acc ((pid, number) ∷ []) rest)

-- A PAT whose fields have their widths and whose length is that of its entries.
pub record IsPat (p : Pat) : Type 0 where
  pub id_zero : p.table_id ≡ 0
  pub syntax_one : p.section_syntax_indicator ≡ 1
  pub length_eq : p.section_length ≡ 9 + 4 * length p.pmts
  pub length_le : p.section_length ≤ 0x3fd
  pub stream_lt : p.transport_stream_id < 2 ^ 16
  pub version_lt : p.version_number < 2 ^ 5
  pub current_lt : p.current_next_indicator < 2
  pub programs : are_programs [] p.pmts ≡ true

-- The bits of a version that Marshal's mask 0x37 leaves: all but bit 2.
abbrev pub masked_version : ℕ → ℕ
masked_version v = v / 2 ^ 3 * 2 ^ 3 + v % 2 ^ 2

pat_header-pat_bytes :
    (p : Pat) (pmts : List (ℕ × ℕ))
    → IsPat p
    → pat_header (pat_bytes p) pmts
      ≡ record p { pmts = pmts; version_number = masked_version p.version_number }
unfolding pat_header pat_bytes
pat_header-pat_bytes p pmts w =
    let l1 = p.section_syntax_indicator % 2 * 2 ^ 7 + 0x30 + p.section_length / 2 ^ 8 % 2 ^ 4 in
    let v1 =
      0xc0
      + p.version_number / 2 ^ 3 % 2 ^ 2 * 2 ^ 4
      + p.version_number % 2 ^ 2 * 2
      + p.current_next_indicator % 2 in
    let syntax : l1 / 2 ^ 7 % 2 ≡ p.section_syntax_indicator = omega (arith, w.syntax_one) in
    let len : l1 % 2 ^ 4 * 2 ^ 8 + p.section_length % 256 ≡ p.section_length =
      omega (arith, w.syntax_one, w.length_le) in
    let stream : p.transport_stream_id / 2 ^ 8 % 256 * 2 ^ 8 + p.transport_stream_id % 256
        ≡ p.transport_stream_id =
      omega (arith, w.stream_lt) in
    let version : v1 / 2 % 2 ^ 5 ≡ masked_version p.version_number =
      omega (arith, w.version_lt, w.current_lt) in
    let current : v1 % 2 ≡ p.current_next_indicator = omega (arith, w.current_lt) in
    rw (syntax, len, stream, version, current) refl

pub with_crc_lem :
    (x : Bytes) (writable : ℕ) (b : Bytes)
    → with_crc x writable ≡ some b
    → b ≡ x ++ put_be32 (crc32 x)
with_crc_lem x writable b e = ground arith

module _ (R : Reader) where
  open R use {Conn}

  -- The three reads of Parse.
  pat_reads :
      (c c1 c2 c3 : Conn) (b1 b2 b3 : Bytes) (q : Pat)
      → read R 8 c ≡ some (b1, c1)
      → pat_header b1 [] ≡ q
      → is_section 0 q.table_id q.section_syntax_indicator q.section_length ≡ true
      → read R ((q.section_length + 2 ^ 16 - 9) % 2 ^ 16) c1 ≡ some (b2, c2)
      → read R 4 c2 ≡ some (b3, c3)
      → (be32_at b3 0 == crc32 (b1 ++ b2)) ≡ true
      → parse_pat_section R [] c ≡ some (record q { pmts = pat_entries b2 [] }, c3)
  unfolding parse_pat_section
  pat_reads c c1 c2 c3 b1 b2 b3 q e1 hq guard e2 e3 check =
      rw (parse_pat_section, Reader.◌>>=◌, e1, hq, guard, e2, e3, check, hq) refl

  -- What Marshal writes for a PAT, Parse reads back into an empty one, past the check of the checksum:
  -- all fields and the programs in their order, but bit 2 of the version is 0 afterwards. The table id
  -- is 0 and the syntax indicator 1; the section length is 9 and 4 for each program, and 0x3fd at most;
  -- the stream id, the version and the current indicator fit their 16, 5 and 1 bits; and each program
  -- has a number from 1 to 2 ^ 16 - 1 and a PID of 13 bits that no program before it has.
  pub parse_pat_section-marshal_pat :
      (p : Pat) (writable : ℕ) (b : Bytes)
      → IsPat p
      → marshal_pat p writable ≡ some b
      → Parses R
          (parse_pat_section R [])
          b
          (record p { version_number = masked_version p.version_number })
  unfolding marshal_pat
  parse_pat_section-marshal_pat p writable b w e c ys f =
      let head = pat_bytes p in
      let entries = pat_entry_bytes p.pmts in
      let crc = put_be32 (crc32 (head ++ entries)) in
      let whole : b ≡ (head ++ entries) ++ crc = with_crc_lem (head ++ entries) writable b e in
      let parted : b ++ ys ≡ head ++ (entries ++ (crc ++ ys)) =
        ap (λ x. x ++ ys) whole
        ∙ append_assoc (head ++ entries) crc ys
        ∙ append_assoc head entries (crc ++ ys) in
      let (c1, e1, f1) =
        Parses-read R 8 head (unfold pat_bytes in refl) c (entries ++ (crc ++ ys))
          (rw parted at f) in
      let size : (p.section_length + 2 ^ 16 - 9) % 2 ^ 16 ≡ length entries =
        omega (arith, w.length_eq, w.length_le, length-pat_entry_bytes p.pmts) in
      let (c2, e2, f2) = Parses-read R (length entries) entries refl c1 (crc ++ ys) f1 in
      let (c3, e3, f3) = Parses-read R 4 crc refl c2 ys f2 in
      let guard : is_section 0 p.table_id p.section_syntax_indicator p.section_length ≡ true =
        ground (arith, w.id_zero, w.syntax_one, w.length_le) in
      let check : (be32_at crc 0 == crc32 (head ++ entries)) ≡ true =
        ground (arith, be32_at-put_be32 (crc32 (head ++ entries)) (crc32_lt (head ++ entries))) in
      let back : pat_entries entries [] ≡ p.pmts =
        pat_entries-pat_entry_bytes p.pmts [] w.programs in
      let parsed =
        pat_reads c c1 c2 c3 head entries crc
          (record p { pmts = []; version_number = masked_version p.version_number }) e1
          (pat_header-pat_bytes p [] w) guard (rw size e2) e3 check in
      (c3, rw back at parsed, f3)
