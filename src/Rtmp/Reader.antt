-- ===== src/Rtmp/Reader.antt =====
-- The connection that librtmp reads from (rtmp.readerConn). Its type comes from a package outside
-- the repository, so it is an interface: `read_n` stands for ReadN(n) and for ReadFull on a buffer
-- of n bytes, and `none` for their error. The laws say that a successful read has the length asked
-- for, and that a connection on which given bytes arrive next hands them over in order.
use ggmpeg.Prelude.{
  ℕ, ◌≡◌, refl, Option, none, some, [], ◌++◌, append_assoc, arith, ltb, if◌then◌else◌, length,
  length-append, take, drop, length-take, take-append_left, drop-append_left, Bytes,
}

pub record Reader : Type 1 where
  pub Conn : Type 0
  pub read_n : ℕ → Conn → Option (Bytes × Conn)
  pub Feeds : Conn → Bytes → Type 0
  pub read_n-length :
      (n : ℕ) (c : Conn) (b : Bytes) (c' : Conn) → read_n n c ≡ some (b, c') → length b ≡ n
  pub read_n-Feeds :
      (n : ℕ) (c : Conn) (xs ys : Bytes)
      → n ≡ length xs
      → Feeds c (xs ++ ys)
      → (c' : Conn) × (read_n n c ≡ some (xs, c')) × Feeds c' ys

-- A connection with a list of bytes still to come meets the laws.
unfoldable pub take_exactly : ℕ → Bytes → Option (Bytes × Bytes)
take_exactly n b = if ltb (length b) n then none else some (take n b, drop n b)

pub take_exactly-length : (n : ℕ) (c b c' : Bytes) → take_exactly n c ≡ some (b, c') → length b ≡ n
unfolding take_exactly
take_exactly-length n c b c' e = ground (arith, length-take n c)

pub take_exactly-append :
    (n : ℕ) (c xs ys : Bytes)
    → n ≡ length xs
    → c ≡ xs ++ ys
    → (c' : Bytes) × (take_exactly n c ≡ some (xs, c')) × (c' ≡ ys)
unfolding take_exactly
take_exactly-append n c xs ys h e = (
  ys,
  rw e
      (ground (arith, take-append_left xs ys n h, drop-append_left xs ys n h, length-append xs ys)),
  refl,
)

abbrev pub list_reader : Reader
list_reader = record {
  Conn = Bytes;
  read_n = take_exactly;
  Feeds = λ c b. c ≡ b;
  read_n-length = take_exactly-length;
  read_n-Feeds = take_exactly-append;
}

-- Parsers over a connection.
module _ (R : Reader) where
  open R use {Conn, read_n, Feeds, read_n-Feeds}

  abbrev pub Parser : Type 0 → Type 0
  Parser A = Conn → Option (A × Conn)

  abbrev pub read : ℕ → Parser Bytes
  read n = read_n n

  abbrev pub pure : {A : Type 0} → A → Parser A
  pure a c = some (a, c)

  abbrev pub fail : {A : Type 0} → Parser A
  fail c = none

  infixl 5 ◌>>=◌
  abbrev pub ◌>>=◌ : {A B : Type 0} → Parser A → (A → Parser B) → Parser B
  ◌>>=◌ m f c = elim (m c) [ some (a, c') ↦ f a c' | none ↦ none ]

  -- On a connection where `xs` arrives next, the parser takes just that and returns `a`.
  abbrev pub Parses : {A : Type 0} → Parser A → Bytes → A → Type 0
  Parses {A} m xs a =
      (c : Conn) (ys : Bytes)
      → Feeds c (xs ++ ys)
      → (c' : Conn) × (m c ≡ some (a, c')) × Feeds c' ys

  pub Parses-read : (n : ℕ) (xs : Bytes) → n ≡ length xs → Parses (read n) xs xs
  Parses-read n xs h c ys f = read_n-Feeds n c xs ys h f

  pub Parses-pure : {A : Type 0} (a : A) → Parses (pure a) [] a
  Parses-pure a c ys f = (c, refl, f)

  pub Parses->>= :
      {A B : Type 0} (m : Parser A) (next : A → Parser B) (xs ys : Bytes) (a : A) (b : B)
      → Parses m xs a
      → Parses (next a) ys b
      → Parses (m >>= next) (xs ++ ys) b
  Parses->>= m next xs ys a b p q c zs f =
      let (c1, e1, f1) = p c (ys ++ zs) (rw append_assoc at f) in
      let (c2, e2, f2) = q c1 zs f1 in (c2, rw (e1, ◌>>=◌) e2, f2)
