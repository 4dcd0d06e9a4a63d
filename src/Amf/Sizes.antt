-- ===== src/Amf/Sizes.antt =====
-- The sizes of encoded values (libamf/amf0.go).
use ggmpeg.Prelude.{
  ℕ, ◌+◌, ◌≤◌, ◌<◌, ◌≡◌, refl, true, false, [], ◌∷◌, ◌++◌, append-nil, arith, length, length-append,
  Bytes,
}
use ggmpeg.Amf.{
  Value, Fields, number, integer, boolean, text, object, strict_array, date, xml, absent, no_fields,
  field, encode_string, encode_number, encode_boolean, encode, encode_fields, object_end_marker,
}
use ggmpeg.Amf.Flat.{is_scalar}
use ggmpeg.Amf.Objects.{count}

entry_size : (key rest : Bytes) → 0 < length (encode_string false key ++ rest)
unfolding encode_string
entry_size key rest = ground arith

pub size_lem :
    (to_double : ℕ → ℕ) (entries : Fields)
    → count entries ≤ length (encode_fields to_double entries)
unfolding count encode
size_lem to_double no_fields = omega arith
size_lem to_double (field k v rest) =
    let key = encode_string false k in
    let value = encode to_double v in
    let others = encode_fields to_double rest in
    let sum : length (key ++ (value ++ others))
        ≡ length (key ++ []) + (length value + length others) =
      rw (length-append key (value ++ others), length-append value others, append-nil key) refl in
    let smaller : count rest ≤ length others = size_lem to_double rest in
    let one : 0 < length (key ++ []) = entry_size k [] in rw sum (omega arith)

pub scalar_size :
    (to_double : ℕ → ℕ) (v : Value) → is_scalar v ≡ true → 0 < length (encode to_double v)
unfolding is_scalar encode encode_number encode_boolean encode_string
scalar_size to_double (number x) h = omega arith
scalar_size to_double (integer n) h = omega arith
scalar_size to_double (boolean b) h = omega arith
scalar_size to_double (text s) h = ground arith
scalar_size to_double (object entries) h = omega arith
scalar_size to_double (strict_array entries) h = ground arith
scalar_size to_double (date t) h = ground arith
scalar_size to_double (xml b) h = ground arith
scalar_size to_double absent h = omega arith

pub object_size :
    (to_double : ℕ → ℕ) (entries : Fields)
    → count entries + 4 ≤ length (encode to_double (object entries))
unfolding encode
object_size to_double entries = omega (
  arith,
  size_lem to_double entries,
  length-append (encode_fields to_double entries) (0 ∷ 0 ∷ object_end_marker ∷ []),
)
