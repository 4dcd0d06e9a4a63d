-- ===== src/Rtmp/Aggregate.antt =====
-- librtmp/aggregate_message.go: the loop over the sub-messages of an aggregate message. Parse and Do
-- of a sub-message are given as one function on a state, none for the error of either.
use ggmpeg.Prelude.{
  ℕ, zero, suc, ◌+◌, ◌-◌, ◌*◌, ◌/◌, ◌%◌, ◌^◌, ◌≤◌, ◌<◌, ◌≡◌, refl, sym, ap, ◌∙◌, ◌≢◌, ◌↔◌, ◌⊎◌, inl,
  inr, Bool, true, false, not, ◌&&◌, ◌||◌, Option, none, some, List, [], ◌∷◌, ◌++◌, append-nil,
  append_assoc, arith, ltb, leb, ◌==◌, if◌then◌else◌, ltb→lt, lt→ltb, leb→le, le→leb, leb-false→lt,
  ltb-false→le, ==_iff, tests, Bool-cases, Option-cases, length, get_elem?, set, length-append,
  get_or, take, drop, replicate, take-append-drop, length-take, length-drop, length-replicate,
  take-append_left, drop-append_left, take_whole, drop_whole, Bytes, IsByte, All, All-append, at,
  has_bit, put_be16, put_be24, put_be32, be16_at, be24_at, be32_at,
}
use ggmpeg.Rtmp.Message.{MessageBase}
pub mod Tags
mod Tests

-- The sub-messages that are not skipped: audio, video and the two kinds of data.
unfoldable pub is_sub_type : ℕ → Bool
is_sub_type t = t == 8 || t == 9 || t == 18 || t == 15

-- The time of a sub-message, moved to the container's.
unfoldable pub rebase : ℕ → ℕ → ℕ → ℕ
rebase message_time first_sub_ts ts =
    (message_time + (ts + 2 ^ 32 - first_sub_ts) % 2 ^ 32) % 2 ^ 32

unfoldable pub first_or : Option ℕ → ℕ → ℕ
first_or (some t) ts = t
first_or none ts = ts

-- What stands at `off` of the source's loop is the head of `rest`; on fuel.
unfoldable pub sub_messages :
    {S : Type 0} → ℕ → Option ℕ → MessageBase → (MessageBase → S → Option S) → Bytes → S → Option S
sub_messages {S} zero first m handle rest s = none
sub_messages {S} (suc n) first m handle rest s =
    let sub_len = be24_at rest 1 in
    let ts = be24_at rest 4 + at rest 7 * 2 ^ 24 in
    let first_sub_ts = first_or first ts in
    let sub : MessageBase = record {
      time = rebase m.time first_sub_ts ts;
      message_length = sub_len;
      message_type = at rest 0;
      stream_id = m.stream_id;
      payload = take sub_len (drop 11 rest);
    } in
    let after : S → Option S =
      λ t. sub_messages n (some first_sub_ts) m handle (drop 4 (drop sub_len (drop 11 rest))) t in
    if ltb (length rest) 11
    then some s
    else if ltb (length rest) (11 + sub_len)
    then none
    else if is_sub_type (at rest 0)
    then (elim (handle sub s) [ some t ↦ after t | none ↦ none ])
    else after s

unfoldable pub do_aggregate :
    {S : Type 0} → MessageBase → (MessageBase → S → Option S) → S → Option S
do_aggregate m handle s = sub_messages (suc (length m.payload)) none m handle m.payload s
