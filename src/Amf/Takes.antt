-- ===== src/Amf/Takes.antt =====
-- Decoders (libamf/amf0.go) on a reader whose next bytes are known.
use ggmpeg.Prelude.{
  ℕ, ◌+◌, ◌*◌, ◌/◌, ◌%◌, ◌^◌, ◌≤◌, ◌<◌, ◌≡◌, refl, ap, Bool, true, false, [], ◌∷◌, ◌++◌, append-nil,
  append_assoc, arith, if◌then◌else◌, length, Bytes, put_be16, put_be32, be16_at, be32_at,
}
use ggmpeg.Amf.{put_word}
use ggmpeg.Amf.Decode.{
  Outcome, done, Source, and_then, decode_number, decode_boolean, decode_string, decode_long_string,
}

word_lem : (x : ℕ) → x < 2 ^ 64 → be32_at (put_word x) 0 * 2 ^ 32 + be32_at (put_word x) 4 ≡ x
word_lem x h =
    let q56 : x / 2 ^ 32 / 2 ^ 16 / 256 ≡ x / 2 ^ 32 / 2 ^ 24 = omega arith in
    let q48 : x / 2 ^ 32 / 2 ^ 8 / 256 ≡ x / 2 ^ 32 / 2 ^ 16 = omega arith in
    let high : be32_at (put_be32 (x / 2 ^ 32)) 0 ≡ x / 2 ^ 32 = omega arith in
    let low : be32_at (put_be32 x) 0 ≡ x % 2 ^ 32 = omega arith in rw (high, low) (omega arith)

module _ (S : Source) where
  open S use {Conn, read_n, Feeds, read_n-Feeds}

  -- Where `xs` comes next, the decoder takes just that and returns `a`.
  abbrev pub Takes : {A : Type 0} → (Conn → Outcome A Conn) → Bytes → A → Type 0
  Takes {A} m xs a =
      (c : Conn) (ys : Bytes) → Feeds c (xs ++ ys) → (c' : Conn) × (m c ≡ done a c') × Feeds c' ys

  pub Takes-read : (xs : Bytes) → Takes (read_n (length xs)) xs xs
  Takes-read xs c ys f = read_n-Feeds (length xs) c xs ys refl f

  pub Takes-done : {A : Type 0} (a : A) → Takes (done a) [] a
  Takes-done a c ys f = (c, refl, f)

  pub Takes-and_then :
      {A B : Type 0} (m : Conn → Outcome A Conn) (next : A → Conn → Outcome B Conn) (xs ys : Bytes)
      (a : A) (b : B)
      → Takes m xs a
      → Takes (next a) ys b
      → Takes (λ c. and_then (m c) next) (xs ++ ys) b
  Takes-and_then m next xs ys a b p q c zs f =
      let (c1, e1, f1) = p c (ys ++ zs) (rw append_assoc at f) in
      let (c2, e2, f2) = q c1 zs f1 in (c2, rw e1 e2, f2)

  pub Takes-bytes :
      {A : Type 0} (m : Conn → Outcome A Conn) (xs ys : Bytes) (a : A)
      → ys ≡ xs
      → Takes m xs a
      → Takes m ys a
  Takes-bytes m xs ys a e p = rw e p

  -- With nothing more to take.
  pub Takes-map :
      {A B : Type 0} (m : Conn → Outcome A Conn) (f : A → B) (xs : Bytes) (a : A)
      → Takes m xs a
      → Takes (λ c. and_then (m c) (λ x c1. done (f x) c1)) xs (f a)
  Takes-map m f xs a p =
      rw append-nil at (Takes-and_then m (λ x c1. done (f x) c1) xs [] a (f a) p (Takes-done (f a)))

  pub Takes-decode_number : (x : ℕ) → x < 2 ^ 64 → Takes (decode_number S) (put_word x) x
  unfolding decode_number
  Takes-decode_number x h c ys f =
      let (c', e, f') = Takes-read (put_word x) c ys f in
      (c', rw e (ap (λ v. done v c') (word_lem x h)), f')

  pub Takes-decode_boolean : (b : Bool) → Takes (decode_boolean S) ((if b then 1 else 0) ∷ []) b
  unfolding decode_boolean
  Takes-decode_boolean true c ys f =
      let (c', e, f') = Takes-read (1 ∷ []) c ys f in (c', rw e refl, f')
  Takes-decode_boolean false c ys f =
      let (c', e, f') = Takes-read (0 ∷ []) c ys f in (c', rw e refl, f')

  pub Takes-decode_string :
      (s : Bytes) → length s ≤ 0xffff → Takes (decode_string S) (put_be16 (length s) ++ s) s
  unfolding decode_string
  Takes-decode_string s h =
      let size : be16_at (put_be16 (length s)) 0 ≡ length s = omega arith in
      Takes-and_then (read_n 2) (λ b c1. read_n (be16_at b 0) c1) (put_be16 (length s)) s
        (put_be16 (length s)) s (Takes-read (put_be16 (length s))) (rw size (Takes-read s))

  pub Takes-decode_long_string :
      (s : Bytes) → length s < 2 ^ 32 → Takes (decode_long_string S) (put_be32 (length s) ++ s) s
  unfolding decode_long_string
  Takes-decode_long_string s h =
      let size : be32_at (put_be32 (length s)) 0 ≡ length s = omega arith in
      Takes-and_then (read_n 4) (λ b c1. read_n (be32_at b 0) c1) (put_be32 (length s)) s
        (put_be32 (length s)) s (Takes-read (put_be32 (length s))) (rw size (Takes-read s))
