-- ===== src/Amf/Tests.antt =====
-- Tests of the AMF0 codec (libamf/amf0.go), on a reader of a list of bytes.
use ggmpeg.Prelude.{
  ℕ, ◌<◌, ◌≡◌, refl, true, false, List, [], ◌∷◌, ◌++◌, arith, leb, ◌==◌, if◌then◌else◌, length,
  length-append, take, drop, take-append_left, drop-append_left, Bytes,
}
use ggmpeg.Prelude.Equal.{same_bytes}
use ggmpeg.Amf.{
  Value, number, boolean, text, object, absent, no_fields, field, encode, encode_number,
  encode_boolean, encode_string,
}
use ggmpeg.Amf.Decode.{
  Outcome, done, end_of_file, wrong, Source, decode, decode_loop, decode_value, by_marker,
  decode_number, decode_boolean, decode_string, read_pair, decode_object, set_field,
}
use ggmpeg.Amf.Flat.{is_scalar}
use ggmpeg.Amf.Objects.{has_scalars, has_key}
use ggmpeg.Amf.RoundTrip.{is_flat, are_flat, read_back, encode_all, decode-encode_all}

read_list : ℕ → Bytes → Outcome Bytes Bytes
read_list n b =
    if leb n (length b)
    then done (take n b) (drop n b)
    else if length b == 0
    then end_of_file
    else wrong

read_list-append :
    (n : ℕ) (c xs ys : Bytes)
    → n ≡ length xs
    → c ≡ xs ++ ys
    → (c' : Bytes) × (read_list n c ≡ done xs c') × (c' ≡ ys)
unfolding read_list
read_list-append n c xs ys h e =
    let front : take n (xs ++ ys) ≡ xs = take-append_left xs ys n h in
    let back : drop n (xs ++ ys) ≡ ys = drop-append_left xs ys n h in
    let enough : leb n (length (xs ++ ys)) ≡ true = ground (arith, length-append xs ys) in
    (ys, rw (e, enough, front, back) refl, refl)

read_list_end : (n : ℕ) (c : Bytes) → 0 < n → c ≡ [] → read_list n c ≡ end_of_file
unfolding read_list
read_list_end n c h e = let few : leb n 0 ≡ false = ground arith in rw (e, few) refl

abbrev list_source : Source
list_source = record {
  Conn = Bytes;
  read_n = read_list;
  Feeds = λ c b. c ≡ b;
  read_n-Feeds = read_list-append;
  read_n-end = read_list_end;
}

-- The integers of a command are written as doubles of their own.
abbrev same_pattern : ℕ → ℕ
same_pattern n = n

abbrev connect : List Value
connect =
    text (0x63 ∷ 0x6f ∷ [])
    ∷ number 0x3ff0000000000000
    ∷ object (field (0x61 ∷ []) (text (0x6c ∷ [])) (field (0x62 ∷ []) (boolean true) no_fields))
    ∷ []

connect-are_flat : are_flat connect ≡ true
unfolding are_flat is_flat is_scalar has_scalars has_key set_field same_bytes
connect-are_flat = refl

connect_size : length (encode_all same_pattern connect) < 100
unfolding encode_all encode encode_number encode_boolean encode_string
connect_size = omega arith

decode-encode_all_example :
    decode list_source 100 (encode_all same_pattern connect) ≡ (read_back connect, false)
decode-encode_all_example =
    decode-encode_all list_source same_pattern 100 connect (encode_all same_pattern connect)
      connect-are_flat connect_size refl

abbrev nested_object : Value
nested_object = object (field (0x61 ∷ []) (object (field (0x62 ∷ []) absent no_fields)) no_fields)

-- An object in an object is not read back: the end marker of the inner one is taken for the length of
-- a key, and nothing at all is left of the value.
nested_object_lost : decode list_source 100 (encode same_pattern nested_object) ≡ ([], true)
unfolding decode decode_loop decode_value by_marker decode_object read_pair decode_string
    decode_number decode_boolean encode encode_string read_list set_field
nested_object_lost = refl
