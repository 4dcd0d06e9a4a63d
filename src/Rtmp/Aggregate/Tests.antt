-- ===== src/Rtmp/Aggregate/Tests.antt =====
-- An aggregate message of two tags.
use ggmpeg.Prelude.{ℕ, ◌≡◌, refl, Option, none, some, List, [], ◌∷◌, arith, length, Bytes, All}
use ggmpeg.Flv.{TagBase, Tag, meta, marshal_tag, tag_base}
use ggmpeg.Rtmp.Message.{MessageBase}
use ggmpeg.Rtmp.Aggregate.{do_aggregate}
use ggmpeg.Rtmp.Aggregate.Tags.{written, handle_tags, FitsTag, do_aggregate-written}

abbrev base : ℕ → TagBase
base t = record { tag_type = 0; data_size = 0; timestamp = t; stream_id = 0 }

abbrev tags : List Tag
tags = meta (base 100) (2 ∷ 0 ∷ []) ∷ meta (base 120) (3 ∷ []) ∷ []

abbrev aggregate_of : Bytes → MessageBase
aggregate_of b = record {
  time = 1000;
  message_length = length b;
  message_type = 22;
  stream_id = 1;
  payload = b;
}

-- Takes down the time and payload.
abbrev record_message : MessageBase → List (ℕ × Bytes) → Option (List (ℕ × Bytes))
record_message m s = some ((m.time, m.payload) ∷ s)

tags-FitsTag : All FitsTag tags
unfolding marshal_tag tag_base
tags-FitsTag = (
  record { body_fits = omega arith; time_fits = omega arith },
  (record { body_fits = omega arith; time_fits = omega arith }, tt),
)

do_aggregate-written_example :
    do_aggregate (aggregate_of (written tags)) record_message []
    ≡ handle_tags none (aggregate_of (written tags)) record_message tags []
do_aggregate-written_example =
    do_aggregate-written (aggregate_of (written tags)) record_message tags [] tags-FitsTag refl
