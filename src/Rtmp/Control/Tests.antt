-- ===== src/Rtmp/Control/Tests.antt =====
-- Control messages at concrete inputs.
use ggmpeg.Prelude.{◌≡◌, refl, none, some, [], ◌∷◌, arith, Bytes}
use ggmpeg.Rtmp.Reader.{list_reader, Parses}
use ggmpeg.Rtmp.Chunk.{ChunkState, Chunk, fmt0, new_chunk}
use ggmpeg.Rtmp.Message.{collect}
use ggmpeg.Rtmp.Message.Steps.{message}
use ggmpeg.Rtmp.Control.{
  ControlMessage, set_peer_bandwidth, user_control, ping_request, parsed, parse_control,
  send_control, Connection,
}
use ggmpeg.Rtmp.Control.Wire.{bandwidth_plain, parse_control-send_control}

abbrev audio_chunk : Chunk
unfolding new_chunk
audio_chunk = new_chunk 8 1 0 fmt0 4 (0 ∷ [])

abbrev chunks : ChunkState
chunks = record { last_chunk = (4, audio_chunk) ∷ []; peer_max_chunk_size = 128 }

abbrev connection : Connection
connection = record {
  chunks = chunks;
  acks = record { bytes_received = 0; last_acked = 0; peer_window_ack_size = 0 };
  peer_bandwidth = 0;
  peer_bandwidth_limit = 0;
}

abbrev bandwidth : ControlMessage
bandwidth = set_peer_bandwidth 5000000 2

parse_control-send_control_example :
    (xs b : Bytes) × (s1 : ChunkState) × (send_control 0 0 bandwidth ≡ some xs)
    × Parses list_reader (collect list_reader 1 none chunks) xs (message 6 0 b b, s1)
    × (parse_control 6 b ≡ parsed bandwidth)
parse_control-send_control_example =
    parse_control-send_control list_reader 0 0 0 chunks bandwidth
      (bandwidth_plain (omega arith) (omega arith)) (omega arith) (omega arith)

abbrev ping : Bytes
ping = 0 ∷ 6 ∷ 1 ∷ 2 ∷ 3 ∷ 4 ∷ 5 ∷ []

parse_ping : parse_control 4 ping ≡ parsed (user_control ping_request (1 ∷ 2 ∷ 3 ∷ 4 ∷ 5 ∷ []))
unfolding parse_control
parse_ping = refl
