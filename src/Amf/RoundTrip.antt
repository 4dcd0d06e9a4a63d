-- ===== src/Amf/RoundTrip.antt =====
-- A run of encoded values, decoded (libamf/amf0.go).
use ggmpeg.Prelude.{
  ℕ, zero, suc, ◌+◌, ◌<◌, ◌≡◌, refl, sym, ◌∙◌, ◌⊎◌, inl, inr, Bool, true, false, ◌&&◌, List, [],
  ◌∷◌, ◌++◌, append-nil, append_assoc, arith, ◌==◌, if◌then◌else◌, length, length-append, Bytes,
}
use ggmpeg.Amf.Sizes.{scalar_size, object_size}
use ggmpeg.Amf.{
  Value, Fields, number, integer, boolean, text, object, strict_array, date, xml, absent, no_fields,
  encode, encode_fields, object_marker, reference_marker, object_end_marker,
}
use ggmpeg.Amf.Decode.{
  done, end_of_file, Source, decode_value, by_marker, decode_object, decode_loop, decode, resolve,
  is_complex,
}
use ggmpeg.Amf.Takes.{Takes, Takes-done, Takes-map}
use ggmpeg.Amf.Flat.{is_scalar, marker_of, nested, Takes-decode_value, scalar_lem}
use ggmpeg.Amf.Objects.{has_scalars, count, join, object_lem}

-- A scalar, or an object of scalars under distinct keys.
unfoldable pub is_flat : Value → Bool
is_flat (number x) = is_scalar (number x)
is_flat (integer n) = false
is_flat (boolean b) = true
is_flat (text s) = is_scalar (text s)
is_flat (object entries) = has_scalars no_fields entries
is_flat (strict_array entries) = false
is_flat (date t) = false
is_flat (xml b) = false
is_flat absent = true

-- The end marker of an object comes out as a nil of its own.
unfoldable pub behind : Value → List Value
behind (number x) = []
behind (integer n) = []
behind (boolean b) = []
behind (text s) = []
behind (object entries) = absent ∷ []
behind (strict_array entries) = []
behind (date t) = []
behind (xml b) = []
behind absent = []

unfoldable pub read_back : List Value → List Value
read_back [] = []
read_back (v ∷ vs) = v ∷ (behind v ++ read_back vs)

unfoldable pub are_flat : List Value → Bool
are_flat [] = true
are_flat (v ∷ vs) = let more = are_flat vs in is_flat v && more

unfoldable pub encode_all : (ℕ → ℕ) → List Value → Bytes
encode_all to_double [] = []
encode_all to_double (v ∷ vs) = encode to_double v ++ encode_all to_double vs

scalar_cases :
    (v : Value)
    → is_flat v ≡ true
    → ((is_scalar v ≡ true) × (behind v ≡ []) × ((marker_of v == reference_marker) ≡ false))
      ⊎ ((entries : Fields) × (v ≡ object entries) × (has_scalars no_fields entries ≡ true))
unfolding is_flat is_scalar behind marker_of
scalar_cases (number x) h = inl (h, refl, refl)
scalar_cases (integer n) h = ground arith
scalar_cases (boolean b) h = inl (refl, refl, refl)
scalar_cases (text s) h = inl (h, refl, ground arith)
scalar_cases (object entries) h = inr (entries, refl, h)
scalar_cases (strict_array entries) h = ground arith
scalar_cases (date t) h = ground arith
scalar_cases (xml b) h = ground arith
scalar_cases absent h = inl (refl, refl, refl)

flat_size : (to_double : ℕ → ℕ) (v : Value) → is_flat v ≡ true → 0 < length (encode to_double v)
flat_size to_double v h = elim (scalar_cases v h) [
  | inl (hv, hb, hm) ↦ scalar_size to_double v hv
  | inr (entries, e, he) ↦ rw e (omega (arith, object_size to_double entries))
]

module _ (S : Source) (to_double : ℕ → ℕ) where
  open S use {Conn, read_n, Feeds, read_n-end}

  object-Takes :
      (n : ℕ) (entries : Fields)
      → has_scalars no_fields entries ≡ true
      → count entries < suc n
      → Takes S
          (decode_value S (suc (suc n)))
          (object_marker ∷ (encode_fields to_double entries ++ (0 ∷ 0 ∷ [])))
          (object_marker, object entries)
  unfolding by_marker join
  object-Takes n entries h hn =
      let body = encode_fields to_double entries ++ (0 ∷ 0 ∷ []) in
      Takes-decode_value S to_double (suc n) object_marker body (object entries) (
        Takes-map S (decode_object S (suc n) (nested S to_double (suc n)) no_fields) object body
          entries (object_lem S to_double (suc n) n no_fields entries h hn))

  absent-Takes :
      (n : ℕ)
      → Takes S (decode_value S (suc n)) (object_end_marker ∷ []) (object_end_marker, absent)
  unfolding by_marker
  absent-Takes n =
      Takes-decode_value S to_double n object_end_marker [] absent (Takes-done S absent)

  end_value : (n : ℕ) (c : Conn) → Feeds c [] → decode_value S (suc n) c ≡ end_of_file
  unfolding decode_value
  end_value n c f = rw (read_n-end 1 c (omega arith) f) refl

  loop_end :
      (n : ℕ) (references : List ℕ) (res : List Value) (c : Conn)
      → Feeds c []
      → decode_loop S (suc n) references res c ≡ (res, false)
  unfolding decode_loop
  loop_end n references res c f = rw (decode_loop, end_value n c f) refl

  -- One value more.
  loop_step :
      (n m : ℕ) (references : List ℕ) (res : List Value) (v : Value) (c c' : Conn)
      (out : List Value × Bool)
      → decode_value S (suc n) c ≡ done (m, v) c'
      → (m == reference_marker) ≡ false
      → ((next : List ℕ) → decode_loop S n next (res ++ (v ∷ [])) c' ≡ out)
      → decode_loop S (suc n) references res c ≡ out
  unfolding decode_loop resolve
  loop_step n m references res v c c' out e hm h =
      rw (decode_loop, e, resolve, hm)
        (h (if is_complex S m then references ++ (length res ∷ []) else references))

  -- An object, and its end marker behind it.
  object_step :
      (n : ℕ) (references : List ℕ) (res : List Value) (entries : Fields) (c : Conn) (ys : Bytes)
      (out : List Value × Bool)
      → has_scalars no_fields entries ≡ true
      → count entries < suc n
      → Feeds c (encode to_double (object entries) ++ ys)
      → ((next : List ℕ) (c2 : Conn)
          → Feeds c2 ys
          → decode_loop S n next ((res ++ (object entries ∷ [])) ++ (absent ∷ [])) c2 ≡ out)
      → decode_loop S (suc (suc n)) references res c ≡ out
  unfolding encode
  object_step n references res entries c ys out he hn f h =
      let body = encode_fields to_double entries in
      let split : (body ++ (0 ∷ 0 ∷ object_end_marker ∷ [])) ++ ys
          ≡ (body ++ (0 ∷ 0 ∷ [])) ++ (object_end_marker ∷ ys) =
        append_assoc body (0 ∷ 0 ∷ object_end_marker ∷ []) ys
        ∙ sym (append_assoc body (0 ∷ 0 ∷ []) (object_end_marker ∷ ys)) in
      let (c1, e1, f1) = object-Takes n entries he hn c (object_end_marker ∷ ys) (rw split at f) in
      let (c2, e2, f2) = absent-Takes n c1 ys f1 in
      loop_step (suc n) object_marker references res (object entries) c c1 out e1 refl (λ next.
        loop_step n object_end_marker next (res ++ (object entries ∷ [])) absent c1 c2 out e2 refl
          (λ last. h last c2 f2))

  abbrev bytes_of : List Value → Bytes
  bytes_of vs = encode_all to_double vs

  decode_loop-encode_all :
      (n : ℕ) (vs : List Value) (references : List ℕ) (res : List Value) (c : Conn)
      → are_flat vs ≡ true
      → length (bytes_of vs) < n
      → Feeds c (bytes_of vs)
      → decode_loop S n references res c ≡ (res ++ read_back vs, false)
  unfolding are_flat encode_all read_back behind
  decode_loop-encode_all zero vs references res c h hn f = ground arith
  decode_loop-encode_all (suc n) [] references res c h hn f =
      rw append-nil (loop_end n references res c f)
  decode_loop-encode_all (suc zero) (v ∷ vs) references res c h hn f = ground (
    arith,
    flat_size to_double v (ground arith),
    length-append (encode to_double v) (bytes_of vs),
  )
  decode_loop-encode_all (suc (suc n)) (v ∷ vs) references res c h hn f =
      elim (scalar_cases v (ground arith)) [
        | inl (hv, hb, hm) ↦
            let (c1, e1, f1) = scalar_lem S to_double (suc n) v hv c (bytes_of vs) f in
            let shorter : length (bytes_of vs) < suc n = omega (
              arith,
              scalar_size to_double v hv,
              length-append (encode to_double v) (bytes_of vs),
            ) in
            rw hb (
              loop_step (suc n) (marker_of v) references res v c c1
                (res ++ (v ∷ read_back vs), false) e1 hm
                (λ next. rw (append_assoc res (v ∷ []) (read_back vs)) at (
                  decode_loop-encode_all (suc n) vs next (res ++ (v ∷ [])) c1 (ground arith) shorter
                    f1)))
        | inr (entries, e, he) ↦
            let sizes : length (encode to_double (object entries)) + length (bytes_of vs)
                < suc (suc n) =
              rw (length-append, e) at hn in
            let marked : Value = object entries in
            let back : ((res ++ (marked ∷ [])) ++ (absent ∷ [])) ++ read_back vs
                ≡ res ++ (marked ∷ absent ∷ read_back vs) =
              append_assoc (res ++ (marked ∷ [])) (absent ∷ []) (read_back vs)
              ∙ append_assoc res (marked ∷ []) (absent ∷ read_back vs) in
            rw e (
              object_step n references res entries c (bytes_of vs)
                (res ++ (object entries ∷ absent ∷ read_back vs), false) he
                (omega (arith, object_size to_double entries)) (rw e at f)
                (λ next c2 f2. rw back at (
                  decode_loop-encode_all n vs next ((res ++ (marked ∷ [])) ++ (absent ∷ [])) c2
                    (ground arith) (omega (arith, object_size to_double entries)) f2)))
      ]

  -- Decode gives back a run of values that were encoded one behind the other, with nothing of an
  -- error, if each is a number, a boolean, a string, nil or an object of such under distinct keys of
  -- 1 to 65535 bytes, and the run is all that the reader has. Behind every object comes a nil that was
  -- not encoded: its end marker. Fuel above the number of bytes is enough.
  pub decode-encode_all :
      (n : ℕ) (vs : List Value) (c : Conn)
      → are_flat vs ≡ true
      → length (encode_all to_double vs) < n
      → Feeds c (encode_all to_double vs)
      → decode S n c ≡ (read_back vs, false)
  unfolding decode
  decode-encode_all n vs c h hn f = decode_loop-encode_all n vs [] [] c h hn f
