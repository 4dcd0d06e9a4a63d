-- ===== src/Amf/Decode.antt =====
-- Decoding of AMF0 (libamf/amf0.go).
use ggmpeg.Prelude.{
  ℕ, zero, suc, ◌+◌, ◌*◌, ◌^◌, ◌<◌, ◌≡◌, Bool, true, false, not, ◌||◌, Option, none, some, List, [],
  ◌∷◌, ◌++◌, leb, ◌==◌, if◌then◌else◌, length, get_elem?, get_or, Bytes, at, be16_at, be32_at,
}
use ggmpeg.Prelude.Equal.{same_bytes}
use ggmpeg.Amf.{
  Value, Items, Fields, number, integer, boolean, text, object, strict_array, date, xml, absent,
  no_items, item, no_fields, field, number_marker, boolean_marker, string_marker, object_marker,
  reference_marker, ecma_array_marker, strict_array_marker, date_marker, long_string_marker,
  xml_document_marker, typed_object_marker,
}

-- What reading comes to: a result, io.EOF, or another error.
pub data Outcome (A C : Type 0) : Type 0 where
  done : A → C → Outcome A C
  end_of_file : Outcome A C
  wrong : Outcome A C

-- The reader is of a package outside the repository. `read_n` stands for ReadN(n) and for
-- binary.Read of n bytes. The laws: bytes that come next are handed over in order, and a read of at
-- least one byte where nothing comes any more is io.EOF.
pub record Source : Type 1 where
  pub Conn : Type 0
  pub read_n : ℕ → Conn → Outcome Bytes Conn
  pub Feeds : Conn → Bytes → Type 0
  pub read_n-Feeds :
      (n : ℕ) (c : Conn) (xs ys : Bytes)
      → n ≡ length xs
      → Feeds c (xs ++ ys)
      → (c' : Conn) × (read_n n c ≡ done xs c') × Feeds c' ys
  pub read_n-end : (n : ℕ) (c : Conn) → 0 < n → Feeds c [] → read_n n c ≡ end_of_file

abbrev pub and_then : {A B C : Type 0} → Outcome A C → (A → C → Outcome B C) → Outcome B C
and_then (done a c) f = f a c
and_then end_of_file f = end_of_file
and_then wrong f = wrong

-- `res[key] = value`
unfoldable pub set_field : Bytes → Value → Fields → Fields
set_field key value no_fields = field key value no_fields
set_field key value (field k v rest) =
    let more = set_field key value rest in
    if same_bytes key k then field key value rest else field k v more

unfoldable pub append_item : Items → Value → Items
append_item no_items v = item v no_items
append_item (item w rest) v = item w (append_item rest v)

module _ (S : Source) where
  open S use {Conn, read_n}

  abbrev pub Reads : Type 0 → Type 0
  Reads A = Conn → Outcome A Conn

  unfoldable pub decode_number : Reads ℕ
  decode_number c = and_then (read_n 8 c) (λ b c1. done (be32_at b 0 * 2 ^ 32 + be32_at b 4) c1)

  unfoldable pub decode_boolean : Reads Bool
  decode_boolean c = and_then (read_n 1 c) (λ b c1. done (not (at b 0 == 0)) c1)

  unfoldable pub decode_string : Reads Bytes
  decode_string c = and_then (read_n 2 c) (λ b c1. read_n (be16_at b 0) c1)

  unfoldable pub decode_long_string : Reads Bytes
  decode_long_string c = and_then (read_n 4 c) (λ b c1. read_n (be32_at b 0) c1)

  unfoldable pub decode_reference : Reads ℕ
  decode_reference c = and_then (read_n 2 c) (λ b c1. done (be16_at b 0) c1)

  unfoldable pub decode_date : Reads ℕ
  decode_date c = and_then (decode_number c) (λ t c1. and_then (read_n 2 c1) (λ zone c2. done t c2))

  -- Behind a key that is not empty its value, and none at the end of the object.
  abbrev pub read_value : Reads Value → Bytes → Reads (Bytes × Option Value)
  read_value value [] c = done ([], none) c
  read_value value (k ∷ ks) c = and_then (value c) (λ v c1. done (k ∷ ks, some v) c1)

  unfoldable pub read_pair : Reads Value → Reads (Bytes × Option Value)
  read_pair value c = and_then (decode_string c) (read_value value)

  -- The entries up to the empty key; on fuel.
  unfoldable pub decode_object : ℕ → Reads Value → Fields → Reads Fields
  decode_object zero value acc c = wrong
  decode_object (suc n) value acc c = and_then (read_pair value c) (λ pair c1. elim pair.1 [
    | some v ↦ decode_object n value (set_field pair.0 v acc) c1
    | none ↦ done acc c1
  ])

  -- The same, but at most as many entries as are asked for.
  unfoldable pub decode_ecma_array : ℕ → Reads Value → Fields → Reads Fields
  decode_ecma_array zero value acc c = done acc c
  decode_ecma_array (suc n) value acc c = and_then (read_pair value c) (λ pair c1. elim pair.1 [
    | some v ↦ decode_ecma_array n value (set_field pair.0 v acc) c1
    | none ↦ done acc c1
  ])

  unfoldable pub decode_strict_array : ℕ → Reads Value → Items → Reads Items
  decode_strict_array zero value acc c = done acc c
  decode_strict_array (suc n) value acc c =
      and_then (value c) (λ v c1. decode_strict_array n value (append_item acc v) c1)

  -- A value behind its marker. The fuel is for the entries of an object, `value` decodes what is
  -- nested.
  unfoldable pub by_marker : ℕ → Reads Value → ℕ → Reads Value
  by_marker n value marker c =
      if marker == number_marker
      then and_then (decode_number c) (λ x c1. done (number x) c1)
      else if marker == boolean_marker
      then and_then (decode_boolean c) (λ b c1. done (boolean b) c1)
      else if marker == string_marker
      then and_then (decode_string c) (λ s c1. done (text s) c1)
      else if marker == object_marker
      then and_then (decode_object n value no_fields c) (λ fields c1. done (object fields) c1)
      else if marker == reference_marker
      then and_then (decode_reference c) (λ i c1. done (integer i) c1)
      else if marker == ecma_array_marker
      then and_then (read_n 4 c) (λ b c1.
        and_then (decode_ecma_array (be32_at b 0 + 1) value no_fields c1)
          (λ fields c2. done (object fields) c2))
      else if marker == strict_array_marker
      then and_then (read_n 4 c) (λ b c1.
        and_then (decode_strict_array (be32_at b 0) value no_items c1)
          (λ items c2. done (strict_array items) c2))
      else if marker == date_marker
      then and_then (decode_date c) (λ t c1. done (date t) c1)
      else if marker == long_string_marker
      then and_then (decode_long_string c) (λ s c1. done (text s) c1)
      else if marker == xml_document_marker
      then and_then (decode_long_string c) (λ b c1. done (xml b) c1)
      else if marker == typed_object_marker
      then and_then (decode_string c) (λ name c1.
        and_then (decode_object n value no_fields c1)
          (λ fields c2. done (object (field name (object fields) no_fields)) c2))
      else if leb marker typed_object_marker
      then done absent c
      else wrong

  -- The marker and the value; on fuel for the nesting.
  unfoldable pub decode_value : ℕ → Reads (ℕ × Value)
  decode_value zero c = wrong
  decode_value (suc n) c = and_then (read_n 1 c) (λ b c1.
      and_then
        (by_marker n (λ c2. and_then (decode_value n c2) (λ mv c3. done mv.1 c3)) (at b 0) c1)
        (λ v c2. done (at b 0, v) c2))

  -- Where a reference points; only the reference marker makes an integer.
  abbrev pub reference_index : Value → ℕ
  reference_index (integer i) = i
  reference_index (number x) = 0
  reference_index (boolean b) = 0
  reference_index (text s) = 0
  reference_index (object entries) = 0
  reference_index (strict_array entries) = 0
  reference_index (date t) = 0
  reference_index (xml b) = 0
  reference_index absent = 0

  -- `references` are the indices in `res` of what can be referred to.
  unfoldable pub resolve : List ℕ → List Value → ℕ → Value → Value
  resolve references res marker v =
      if marker == reference_marker
      then (elim (get_elem? references (reference_index v)) [
        | some k ↦ get_or res k absent
        | none ↦ v
      ])
      else v

  abbrev pub is_complex : ℕ → Bool
  is_complex marker =
      marker == object_marker || marker == ecma_array_marker || marker == typed_object_marker

  -- The values before the end, and whether an error stopped it: io.EOF is none. On fuel, which also
  -- bounds the nesting.
  unfoldable pub decode_loop : ℕ → List ℕ → List Value → Conn → List Value × Bool
  decode_loop zero references res c = (res, true)
  decode_loop (suc n) references res c = elim (decode_value (suc n) c) [
    | done mv c1 ↦
        decode_loop n (if is_complex mv.0 then references ++ (length res ∷ []) else references)
          (res ++ (resolve references res mv.0 mv.1 ∷ [])) c1
    | end_of_file ↦ (res, false)
    | wrong ↦ (res, true)
  ]

  unfoldable pub decode : ℕ → Conn → List Value × Bool
  decode n c = decode_loop n [] [] c
