-- ===== src/Srt/Packet/RoundTrip.antt =====
-- The two header marshallers against the parser (libsrt/packet.go).
use ggmpeg.Prelude.{ℕ, ◌^◌, ◌<◌, ◌≤◌, ◌≡◌, some, Bytes, length, drop, arith}
use ggmpeg.Srt.Packet.{
  kind_data, kind_control, header_size, parse_header, marshal_data_header, marshal_control_header,
}

-- Into a buffer of at least 16 bytes `MarshalDataHeader` writes a header that `ParseHeader` reads
-- back as a data packet with the same fields, for a 31-bit sequence number and 32-bit other fields;
-- the bytes behind the header are the body that the parser returns.
pub parse_header-marshal_data_header :
    (dst : Bytes) (seq msg_info ts dest_id : ℕ)
    → header_size ≤ length dst
    → seq < 2 ^ 31
    → msg_info < 2 ^ 32
    → ts < 2 ^ 32
    → dest_id < 2 ^ 32
    → parse_header (marshal_data_header dst seq msg_info ts dest_id)
      ≡ some (
        record {
          kind = kind_data;
          control_type = 0;
          sub_type = 0;
          type_info = 0;
          seq_number = seq;
          message_info = msg_info;
          timestamp = ts;
          dest_socket_id = dest_id;
        },
        drop header_size dst,
      )
unfolding parse_header marshal_data_header
parse_header-marshal_data_header dst seq msg_info ts dest_id hl hs hm ht hd = ground arith

-- The same for `MarshalControlHeader`, with a 15-bit control type and a 16-bit subtype.
pub parse_header-marshal_control_header :
    (dst : Bytes) (ctrl_type sub_type type_info ts dest_id : ℕ)
    → header_size ≤ length dst
    → ctrl_type < 2 ^ 15
    → sub_type < 2 ^ 16
    → type_info < 2 ^ 32
    → ts < 2 ^ 32
    → dest_id < 2 ^ 32
    → parse_header (marshal_control_header dst ctrl_type sub_type type_info ts dest_id)
      ≡ some (
        record {
          kind = kind_control;
          control_type = ctrl_type;
          sub_type = sub_type;
          type_info = type_info;
          seq_number = 0;
          message_info = 0;
          timestamp = ts;
          dest_socket_id = dest_id;
        },
        drop header_size dst,
      )
unfolding parse_header marshal_control_header
parse_header-marshal_control_header dst c s i ts dest_id hl hc hs hi ht hd = ground arith
