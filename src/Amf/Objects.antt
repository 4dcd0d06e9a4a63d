-- ===== src/Amf/Objects.antt =====
-- Objects of scalar values (libamf/amf0.go).
use ggmpeg.Prelude.{
  ℕ, zero, suc, ◌≤◌, ◌<◌, ◌≡◌, refl, sym, ap, inl, inr, Bool, true, false, not, ◌&&◌, Option, none,
  some, [], ◌∷◌, ◌++◌, append_assoc, arith, ltb, leb, if◌then◌else◌, Bool-cases, length, Bytes,
  put_be16,
}
use ggmpeg.Prelude.Equal.{same_bytes}
use ggmpeg.Amf.{Value, Fields, no_fields, field, encode_string, encode, encode_fields}
use ggmpeg.Amf.Decode.{
  Outcome, done, Source, decode_string, decode_value, read_value, read_pair, decode_object,
  set_field,
}
use ggmpeg.Amf.Takes.{
  Takes-bytes, Takes, Takes-done, Takes-and_then, Takes-map, Takes-decode_string,
}
use ggmpeg.Amf.Flat.{is_scalar, marker_of, nested, scalar_lem}

unfoldable pub has_key : Bytes → Fields → Bool
has_key key no_fields = false
has_key key (field k v rest) = if same_bytes key k then true else has_key key rest

unfoldable pub join : Fields → Fields → Fields
join no_fields more = more
join (field k v rest) more = field k v (join rest more)

unfoldable pub count : Fields → ℕ
count no_fields = 0
count (field k v rest) = suc (count rest)

-- Entries that an object takes in behind those it has: distinct keys that are not empty and have a
-- 16-bit length, and scalar values.
unfoldable pub has_scalars : Fields → Fields → Bool
has_scalars acc no_fields = true
has_scalars acc (field key v rest) =
    let more = has_scalars (set_field key v acc) rest in
    ltb 0 (length key) && leb (length key) 0xffff && is_scalar v && not (has_key key acc) && more

join-no_fields : (acc : Fields) → join acc no_fields ≡ acc
unfolding join
join-no_fields no_fields = refl
join-no_fields (field k v rest) = ap (field k v) (join-no_fields rest)

-- A key that is new goes to the end.
join-set_field :
    (key : Bytes) (v : Value) (acc rest : Fields)
    → has_key key acc ≡ false
    → join (set_field key v acc) rest ≡ join acc (field key v rest)
unfolding join set_field has_key
join-set_field key v no_fields rest h = refl
join-set_field key v (field k w more) rest h = elim (Bool-cases (same_bytes key k)) [
  | inl e ↦ ground arith
  | inr e ↦ rw (e, set_field) (ap (field k w) (join-set_field key v more rest (rw e at h)))
]

module _ (S : Source) (to_double : ℕ → ℕ) where
  open S use {Conn, read_n, Feeds}

  value_lem :
      (n : ℕ) (v : Value)
      → is_scalar v ≡ true
      → Takes S (nested S to_double (suc n)) (encode to_double v) v
  value_lem n v h =
      Takes-map S (decode_value S (suc n)) (λ mv. mv.1) (encode to_double v) (marker_of v, v)
        (scalar_lem S to_double n v h)

  pair_lem :
      (n : ℕ) (key : Bytes) (v : Value)
      → 0 < length key
      → length key ≤ 0xffff
      → is_scalar v ≡ true
      → Takes S
          (read_pair S (nested S to_double (suc n)))
          ((put_be16 (length key) ++ key) ++ encode to_double v)
          (key, some v)
  unfolding read_pair
  pair_lem n [] v h0 h1 hv = ground arith
  pair_lem n (k ∷ ks) v h0 h1 hv =
      Takes-and_then S (decode_string S) (read_value S (nested S to_double (suc n)))
        (put_be16 (length (k ∷ ks)) ++ (k ∷ ks)) (encode to_double v) (k ∷ ks) (k ∷ ks, some v)
        (Takes-decode_string S (k ∷ ks) h1)
        (Takes-map S (nested S to_double (suc n)) (λ w. (k ∷ ks, some w)) (encode to_double v) v
          (value_lem n v hv))

  end_lem :
      (value : Conn → Outcome Value Conn) → Takes S (read_pair S value) (0 ∷ 0 ∷ []) ([], none)
  unfolding read_pair
  end_lem value =
      Takes-and_then S (decode_string S) (read_value S value) (0 ∷ 0 ∷ []) [] [] ([], none)
        (Takes-decode_string S [] (omega arith)) (Takes-done S ([], none))

  -- What decode_object does with an entry.
  abbrev onward :
      ℕ → (Conn → Outcome Value Conn) → Fields → Bytes × Option Value → Conn → Outcome Fields Conn
  onward m value acc pair c1 = elim pair.1 [
    | some v ↦ decode_object S m value (set_field pair.0 v acc) c1
    | none ↦ done acc c1
  ]

  encode_entry :
      (key : Bytes) (v : Value) (rest : Fields)
      → length key ≤ 0xffff
      → ((put_be16 (length key) ++ key) ++ encode to_double v)
          ++ (encode_fields to_double rest ++ (0 ∷ 0 ∷ []))
        ≡ encode_fields to_double (field key v rest) ++ (0 ∷ 0 ∷ [])
  unfolding encode encode_string
  encode_entry key v rest h =
      let short : leb (length key) 0xffff ≡ true = ground arith in rw short (simp append_assoc refl)

  pub object_lem :
      (m n : ℕ) (acc entries : Fields)
      → has_scalars acc entries ≡ true
      → count entries < m
      → Takes S
          (decode_object S m (nested S to_double (suc n)) acc)
          (encode_fields to_double entries ++ (0 ∷ 0 ∷ []))
          (join acc entries)
  unfolding has_scalars count decode_object
  object_lem zero n acc entries h hm = ground arith
  object_lem (suc m) n acc no_fields h hm =
      let value = nested S to_double (suc n) in
      rw (join-no_fields acc) (
        unfold encode in
        Takes-and_then S (read_pair S value) (onward m value acc) (0 ∷ 0 ∷ []) [] ([], none) acc
          (end_lem value) (Takes-done S acc))
  object_lem (suc m) n acc (field key v rest) h hm =
      let value = nested S to_double (suc n) in
      let next = set_field key v acc in
      let first = put_be16 (length key) ++ key in
      let joined : join next rest ≡ join acc (field key v rest) =
        join-set_field key v acc rest (ground arith) in
      let entry = first ++ encode to_double v in
      let others = encode_fields to_double rest ++ (0 ∷ 0 ∷ []) in
      rw joined at (
        Takes-bytes S (decode_object S (suc m) value acc) (entry ++ others)
          (encode_fields to_double (field key v rest) ++ (0 ∷ 0 ∷ [])) (join next rest)
          (sym (encode_entry key v rest (ground arith)))
          (Takes-and_then S (read_pair S value) (onward m value acc) entry others (key, some v)
            (join next rest) (pair_lem n key v (ground arith) (ground arith) (ground arith))
            (object_lem m n next rest (ground arith) (omega arith))))
