-- ===== src/Amf/Flat.antt =====
-- Values that are encoded and decoded again (libamf/amf0.go).
use ggmpeg.Prelude.{
  ℕ, suc, ◌^◌, ◌≡◌, inl, inr, Bool, true, false, [], ◌∷◌, ◌++◌, arith, ltb, leb, if◌then◌else◌,
  Bool-cases, length, Bytes, at, put_be16, put_be32,
}
use ggmpeg.Amf.{
  Value, number, integer, boolean, text, object, strict_array, date, xml, absent, put_word,
  encode_number, encode_boolean, encode_string, encode, number_marker, boolean_marker,
  string_marker, object_marker, null_marker, long_string_marker,
}
use ggmpeg.Amf.Decode.{
  Outcome, done, Source, and_then, decode_number, decode_boolean, decode_string, decode_long_string,
  decode_value, by_marker,
}
use ggmpeg.Amf.Takes.{
  Takes, Takes-read, Takes-done, Takes-and_then, Takes-map, Takes-decode_number,
  Takes-decode_boolean, Takes-decode_string, Takes-decode_long_string,
}

-- The values of one marker that both directions know, as wide as their Go types.
unfoldable pub is_scalar : Value → Bool
is_scalar (number x) = ltb x (2 ^ 64)
is_scalar (integer n) = false
is_scalar (boolean b) = true
is_scalar (text s) = ltb (length s) (2 ^ 32)
is_scalar (object entries) = false
is_scalar (strict_array entries) = false
is_scalar (date t) = false
is_scalar (xml b) = false
is_scalar absent = true

unfoldable pub marker_of : Value → ℕ
marker_of (number x) = number_marker
marker_of (integer n) = number_marker
marker_of (boolean b) = boolean_marker
marker_of (text s) = if leb (length s) 0xffff then string_marker else long_string_marker
marker_of (object entries) = object_marker
marker_of (strict_array entries) = null_marker
marker_of (date t) = null_marker
marker_of (xml b) = null_marker
marker_of absent = null_marker

module _ (S : Source) (to_double : ℕ → ℕ) where
  open S use {Conn, read_n, Feeds}

  -- The decoder of what is nested.
  abbrev pub nested : ℕ → Conn → Outcome Value Conn
  nested n c = and_then (decode_value S n c) (λ mv c1. done mv.1 c1)

  pub Takes-decode_value :
      (n m : ℕ) (xs : Bytes) (v : Value)
      → Takes S (by_marker S n (nested n) m) xs v
      → Takes S (decode_value S (suc n)) (m ∷ xs) (m, v)
  unfolding decode_value
  Takes-decode_value n m xs v p =
      Takes-and_then S (read_n 1)
        (λ b c1. and_then (by_marker S n (nested n) (at b 0) c1) (λ v c2. done (at b 0, v) c2))
        (m ∷ []) xs (m ∷ []) (m, v) (Takes-read S (m ∷ []))
        (Takes-map S (by_marker S n (nested n) m) (λ v. (m, v)) xs v p)

  pub scalar_lem :
      (n : ℕ) (v : Value)
      → is_scalar v ≡ true
      → Takes S (decode_value S (suc n)) (encode to_double v) (marker_of v, v)
  unfolding is_scalar marker_of encode encode_number encode_boolean encode_string by_marker
  scalar_lem n (number x) h =
      Takes-decode_value n number_marker (put_word x) (number x) (
        Takes-map S (decode_number S) number (put_word x) x
          (Takes-decode_number S x (ground arith)))
  scalar_lem n (boolean b) h =
      Takes-decode_value n boolean_marker ((if b then 1 else 0) ∷ []) (boolean b) (
        Takes-map S (decode_boolean S) boolean ((if b then 1 else 0) ∷ []) b
          (Takes-decode_boolean S b))
  scalar_lem n (text s) h = elim (Bool-cases (leb (length s) 0xffff)) [
    | inl e ↦ rw e (
        Takes-decode_value n string_marker (put_be16 (length s) ++ s) (text s) (
          Takes-map S (decode_string S) text (put_be16 (length s) ++ s) s
            (Takes-decode_string S s (ground arith))))
    | inr e ↦ rw e (
        Takes-decode_value n long_string_marker (put_be32 (length s) ++ s) (text s) (
          Takes-map S (decode_long_string S) text (put_be32 (length s) ++ s) s
            (Takes-decode_long_string S s (ground arith))))
  ]
  scalar_lem n absent h = Takes-decode_value n null_marker [] absent (Takes-done S absent)
  scalar_lem n (integer i) h = ground arith
  scalar_lem n (object entries) h = ground arith
  scalar_lem n (strict_array entries) h = ground arith
  scalar_lem n (date t) h = ground arith
  scalar_lem n (xml b) h = ground arith
