-- ===== src/Amf.antt =====
-- AMF0 values and their encoding (libamf/amf0.go), for a writer that takes every write. A Go map is
-- its list of entries in the order in which the encoder happens to visit them.
use ggmpeg.Prelude.{
  ℕ, zero, suc, ◌+◌, ◌-◌, ◌*◌, ◌/◌, ◌%◌, ◌^◌, ◌≤◌, ◌<◌, ◌≡◌, refl, sym, ap, ◌∙◌, ◌≢◌, ◌↔◌, ◌⊎◌, inl,
  inr, Bool, true, false, not, ◌&&◌, ◌||◌, Option, none, some, List, [], ◌∷◌, ◌++◌, append-nil,
  append_assoc, arith, ltb, leb, ◌==◌, if◌then◌else◌, ltb→lt, lt→ltb, leb→le, le→leb, leb-false→lt,
  ltb-false→le, ==_iff, tests, Bool-cases, Option-cases, length, get_elem?, set, length-append,
  get_or, take, drop, replicate, take-append-drop, length-take, length-drop, length-replicate,
  take-append_left, drop-append_left, take_whole, drop_whole, drop-append_past, take-append_past,
  Bytes, IsByte, All, All-append, at, has_bit, put_be16, put_be24, put_be32, be16_at, be24_at,
  be32_at,
}
pub mod Decode
pub mod Takes
pub mod Flat
pub mod Objects
pub mod Sizes
pub mod RoundTrip
mod Tests

abbrev pub number_marker : ℕ
number_marker = 0x00

abbrev pub boolean_marker : ℕ
boolean_marker = 0x01

abbrev pub string_marker : ℕ
string_marker = 0x02

abbrev pub object_marker : ℕ
object_marker = 0x03

abbrev pub movieclip_marker : ℕ
movieclip_marker = 0x04

abbrev pub null_marker : ℕ
null_marker = 0x05

abbrev pub undefined_marker : ℕ
undefined_marker = 0x06

abbrev pub reference_marker : ℕ
reference_marker = 0x07

abbrev pub ecma_array_marker : ℕ
ecma_array_marker = 0x08

abbrev pub object_end_marker : ℕ
object_end_marker = 0x09

abbrev pub strict_array_marker : ℕ
strict_array_marker = 0x0a

abbrev pub date_marker : ℕ
date_marker = 0x0b

abbrev pub long_string_marker : ℕ
long_string_marker = 0x0c

abbrev pub unsupported_marker : ℕ
unsupported_marker = 0x0d

abbrev pub record_set_marker : ℕ
record_set_marker = 0x0e

abbrev pub xml_document_marker : ℕ
xml_document_marker = 0x0f

abbrev pub typed_object_marker : ℕ
typed_object_marker = 0x10

-- The Go values that AMF0 works on. A float64 is its 64-bit pattern, also the one that a date is
-- made of; `absent` is nil.
mutual
  pub data Value : Type 0 where
    number : ℕ → Value
    integer : ℕ → Value
    boolean : Bool → Value
    text : Bytes → Value
    object : Fields → Value
    strict_array : Items → Value
    date : ℕ → Value
    xml : Bytes → Value
    absent : Value

  pub data Items : Type 0 where
    no_items : Items
    item : Value → Items → Items

  pub data Fields : Type 0 where
    no_fields : Fields
    field : Bytes → Value → Fields → Fields

abbrev pub put_word : ℕ → Bytes
put_word x = put_be32 (x / 2 ^ 32) ++ put_be32 x

unfoldable pub encode_number : ℕ → Bytes
encode_number x = number_marker ∷ put_word x

unfoldable pub encode_boolean : Bool → Bytes
encode_boolean b = boolean_marker ∷ (if b then 1 else 0) ∷ []

-- Of the two string types by the length.
unfoldable pub encode_string : Bool → Bytes → Bytes
encode_string encode_marker s =
    let short = leb (length s) 0xffff in
    let marker = if short then string_marker else long_string_marker in
    (if encode_marker then marker ∷ [] else [])
    ++ ((if short then put_be16 (length s) else put_be32 (length s)) ++ s)

-- The conversion of integers to float64 is Go's.
module _ (to_double : ℕ → ℕ) where
  -- Structs, slices and arrays are written as nothing at all.
  unfoldable mutual
    pub encode : Value → Bytes
    encode (number x) = encode_number x
    encode (integer n) = encode_number (to_double n)
    encode (boolean b) = encode_boolean b
    encode (text s) = encode_string true s
    encode (object fields) =
        object_marker ∷ (encode_fields fields ++ (0 ∷ 0 ∷ object_end_marker ∷ []))
    encode (strict_array items) = []
    encode (date t) = []
    encode (xml b) = []
    encode absent = null_marker ∷ []

    pub encode_fields : Fields → Bytes
    encode_fields no_fields = []
    encode_fields (field key value rest) =
        encode_string false key ++ (encode value ++ encode_fields rest)
