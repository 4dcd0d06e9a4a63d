-- ===== src/Rtmp/Aggregate/Tags.antt =====
-- An aggregate message of tags that FLVWrite wrote (librtmp/aggregate_message.go, libflv/flv.go).
use ggmpeg.Prelude.{
  ℕ, zero, suc, ◌+◌, ◌-◌, ◌*◌, ◌/◌, ◌%◌, ◌^◌, ◌<◌, ◌≡◌, refl, sym, ap, ◌∙◌, inl, inr, true, false,
  Option, none, some, List, [], ◌∷◌, ◌++◌, append_assoc, arith, ltb, Option-cases, length,
  length-append, take, drop, take-append_left, drop-append_left, Bytes, All, at, put_be24, put_be32,
  be24_at,
}
use ggmpeg.Flv.{Tag, tag_type, marshal_tag, tag_base, flv_write, audio, video, meta}
use ggmpeg.Rtmp.Message.{MessageBase}
use ggmpeg.Rtmp.Aggregate.{is_sub_type, rebase, first_or, sub_messages, do_aggregate}

-- The bytes of tags in order.
unfoldable pub written : List Tag → Bytes
written [] = []
written (t ∷ ts) = flv_write t ++ written ts

-- The sub-message of a tag.
unfoldable pub sub_message : ℕ → MessageBase → Tag → MessageBase
sub_message first m t = record {
  time = (m.time + ((tag_base t).timestamp + 2 ^ 32 - first) % 2 ^ 32) % 2 ^ 32;
  message_length = length (marshal_tag t);
  message_type = tag_type t;
  stream_id = m.stream_id;
  payload = marshal_tag t;
}

unfoldable pub handle_tags :
    {S : Type 0} → Option ℕ → MessageBase → (MessageBase → S → Option S) → List Tag → S → Option S
handle_tags first m handle [] s = some s
handle_tags first m handle (t ∷ ts) s =
    let first_sub_ts = first_or first (tag_base t).timestamp in
    elim (handle (sub_message first_sub_ts m t) s) [
      | some s1 ↦ handle_tags (some first_sub_ts) m handle ts s1
      | none ↦ none
    ]

-- A tag whose sizes fit the header.
pub record FitsTag (t : Tag) : Type 0 where
  pub body_fits : length (marshal_tag t) < 2 ^ 24
  pub time_fits : (tag_base t).timestamp < 2 ^ 32

-- The 11 bytes before the body, and the 4 after it.
abbrev tag_header : Tag → Bytes → Bytes
tag_header t rest =
    let ts = (tag_base t).timestamp in
    tag_type t
    ∷ (put_be24 (length (marshal_tag t))
        ++ (put_be24 ts ++ ((ts / 2 ^ 24 % 256) ∷ 0 ∷ 0 ∷ 0 ∷ rest)))

flv_write_parts :
    (t : Tag) (rest : Bytes)
    → (p : Bytes) × (flv_write t ++ rest ≡ tag_header t (marshal_tag t ++ (p ++ rest)))
      × (length p ≡ 4)
unfolding flv_write
flv_write_parts t rest = (
  put_be32 (length (tag_header t (marshal_tag t))),
  ap (tag_header t)
      (append_assoc (marshal_tag t) (put_be32 (length (tag_header t (marshal_tag t)))) rest),
  refl,
)

tag_type-is_sub_type : (t : Tag) → is_sub_type (tag_type t) ≡ true
unfolding is_sub_type tag_type
tag_type-is_sub_type (audio a) = refl
tag_type-is_sub_type (video v) = refl
tag_type-is_sub_type (meta b body) = refl

sub_messages-step :
    {S : Type 0} (n : ℕ) (first : Option ℕ) (m : MessageBase) (handle : MessageBase → S → Option S)
    (t : Tag) (p rest : Bytes) (s : S)
    → FitsTag t
    → length p ≡ 4
    → sub_messages (suc n) first m handle (tag_header t (marshal_tag t ++ (p ++ rest))) s
      ≡ elim (handle (sub_message (first_or first (tag_base t).timestamp) m t) s) [
        | some s1 ↦ sub_messages n (some (first_or first (tag_base t).timestamp)) m handle rest s1
        | none ↦ none
      ]
unfolding sub_messages sub_message rebase
sub_messages-step n first m handle t p rest s f h =
    let body = marshal_tag t in
    let whole = tag_header t (body ++ (p ++ rest)) in
    let len : be24_at whole 1 ≡ length body = ground arith in
    let ts : be24_at whole 4 + at whole 7 * 2 ^ 24 ≡ (tag_base t).timestamp = ground arith in
    let body_eq : take (length body) (body ++ (p ++ rest)) ≡ body =
      take-append_left body (p ++ rest) (length body) refl in
    let drop_eq : drop (length body) (body ++ (p ++ rest)) ≡ p ++ rest =
      drop-append_left body (p ++ rest) (length body) refl in
    let rest_eq : drop 4 (p ++ rest) ≡ rest = drop-append_left p rest 4 (sym h) in
    let long : ltb (length whole) 11 ≡ false = ground (arith, length-append body (p ++ rest)) in
    let enough : ltb (length whole) (11 + length body) ≡ false =
      ground (arith, length-append body (p ++ rest)) in
    let sub_eq = tag_type-is_sub_type t in
    elim (Option-cases (handle (sub_message (first_or first (tag_base t).timestamp) m t) s)) [
      | inl e ↦ rw (len, ts, body_eq, long, enough, sub_eq, e) refl
      | inr (s1, e) ↦ rw (len, ts, body_eq, long, enough, sub_eq, e, len, ts, drop_eq, rest_eq) refl
    ]

sub_messages_end :
    {S : Type 0} (n : ℕ) (first : Option ℕ) (m : MessageBase) (handle : MessageBase → S → Option S)
    (s : S)
    → sub_messages (suc n) first m handle [] s ≡ some s
unfolding sub_messages
sub_messages_end n first m handle s = refl

sub_messages-written :
    {S : Type 0} (n : ℕ) (first : Option ℕ) (m : MessageBase) (handle : MessageBase → S → Option S)
    (ts : List Tag) (s : S)
    → All FitsTag ts
    → length (written ts) < n
    → sub_messages n first m handle (written ts) s ≡ handle_tags first m handle ts s
unfolding written handle_tags
sub_messages-written zero first m handle ts s f h = absurd (omega arith)
sub_messages-written (suc n) first m handle [] s f h = sub_messages_end n first m handle s
sub_messages-written (suc n) first m handle (t ∷ ts) s (f, fs) h =
    let (p, e, l) = flv_write_parts t (written ts) in
    let step = sub_messages-step n first m handle t p (written ts) s f l in
    let whole : length (flv_write t ++ written ts)
        ≡ length (tag_header t (marshal_tag t ++ (p ++ written ts))) =
      ap length e in
    let short : length (written ts) < n =
      ground
        (arith, length-append (marshal_tag t) (p ++ written ts), length-append p (written ts)) in
    let at_first = first_or first (tag_base t).timestamp in
    ap (λ b. sub_messages (suc n) first m handle b s) e
    ∙ (step ∙ elim (Option-cases (handle (sub_message at_first m t) s)) [
      | inl e1 ↦ rw (e1, handle_tags) refl
      | inr (s1, e1) ↦
          rw (e1, handle_tags) (sub_messages-written n (some at_first) m handle ts s1 fs short)
    ])

-- An aggregate message that holds tags as FLVWrite writes them, audio, video or script data, hands
-- them over one by one and in order until one fails: each with its body as payload, its type and
-- size, the container's stream, and its time less that of the first tag, counted from the
-- container's, modulo 2 ^ 32; if each body is shorter than 2 ^ 24 bytes and each time fits 32 bits.
-- The fuel is the payload's length and one.
pub do_aggregate-written :
    {S : Type 0} (m : MessageBase) (handle : MessageBase → S → Option S) (ts : List Tag) (s : S)
    → All FitsTag ts
    → m.payload ≡ written ts
    → do_aggregate m handle s ≡ handle_tags none m handle ts s
unfolding do_aggregate
do_aggregate-written m handle ts s f e =
    let h : length (written ts) < suc (length m.payload) = rw e (omega arith) in
    ap (λ b. sub_messages (suc (length m.payload)) none m handle b s) e
    ∙ sub_messages-written (suc (length m.payload)) none m handle ts s f h
