-- ===== src/Rtmp/Tests.antt =====
-- Concrete runs of the chunk and message models, and the theorems at concrete inputs.
use ggmpeg.Prelude.{◌-◌, ◌^◌, ◌≡◌, refl, none, some, [], ◌∷◌, arith, Bytes}
use ggmpeg.Rtmp.Reader.{list_reader, Parses}
use ggmpeg.Rtmp.Chunk.{
  fmt0, BasicHeader, ChunkState, send_basic_header, new_chunk, send, send_message_header,
  send_fixed_header, time_field,
}
use ggmpeg.Rtmp.Message.{AckState, collect, send_message, is_message_type}
use ggmpeg.Rtmp.Message.Steps.{message}
use ggmpeg.Rtmp.Message.RoundTrip.{collect-send_message}

abbrev fresh : ChunkState
fresh = record { last_chunk = []; peer_max_chunk_size = 2 }

-- Three chunks, with an extended timestamp.
abbrev frame : Bytes
frame = 0x17 ∷ 1 ∷ 2 ∷ 3 ∷ 4 ∷ []

collect-send_message_example :
    (xs : Bytes) × (s1 : ChunkState) × (send_message 2 9 0x01000000 9 frame ≡ some xs)
    × Parses list_reader
        (collect list_reader 6 none fresh)
        xs
        (message 9 0x01000000 frame frame, s1)
unfolding is_message_type
collect-send_message_example =
    collect-send_message list_reader 2 9 0x01000000 9 fresh frame (omega arith) (omega arith)
      (omega arith) refl (omega arith) (omega arith) (omega arith) (omega arith) refl

abbrev longer : BasicHeader
longer = record { fmt = fmt0; csid = 322 }

send_longer : send_basic_header longer ≡ some (1 ∷ 1 ∷ 2 ∷ [])
unfolding send_basic_header
send_longer = refl

-- 322 is sent, and 577 arrives.
abbrev window : AckState
window = record {
  bytes_received = 2 ^ 32 - 1;
  last_acked = 2 ^ 32 - 100;
  peer_window_ack_size = 100;
}

send_first :
    send (new_chunk 8 3 7 fmt0 4 (1 ∷ 2 ∷ 3 ∷ []))
    ≡ some (4 ∷ 0 ∷ 0 ∷ 7 ∷ 0 ∷ 0 ∷ 3 ∷ 8 ∷ 0 ∷ 0 ∷ 0 ∷ 0 ∷ 1 ∷ 2 ∷ 3 ∷ [])
unfolding send new_chunk send_basic_header send_message_header send_fixed_header time_field
send_first = refl
