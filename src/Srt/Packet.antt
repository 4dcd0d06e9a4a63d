-- ===== src/Srt/Packet.antt =====
-- libsrt/packet.go: the 16-byte header in front of every SRT packet.
use ggmpeg.Prelude.{
  ℕ, ◌+◌, ◌*◌, ◌/◌, ◌%◌, ◌^◌, Bool, Option, none, some, ◌++◌, Bytes, ltb, length, drop, has_bit,
  put_be32, be32_at, if◌then◌else◌,
}
pub mod RoundTrip

abbrev pub header_size : ℕ
header_size = 16

pub data PacketKind : Type 0 where
  kind_data kind_control : PacketKind

abbrev pub ctrl_handshake : ℕ
ctrl_handshake = 0x0000

abbrev pub ctrl_keep_alive : ℕ
ctrl_keep_alive = 0x0001

abbrev pub ctrl_ack : ℕ
ctrl_ack = 0x0002

abbrev pub ctrl_nak : ℕ
ctrl_nak = 0x0003

abbrev pub ctrl_shutdown : ℕ
ctrl_shutdown = 0x0005

-- Fields that the packet's kind does not carry keep Go's zero value.
pub record Header : Type 0 where
  pub kind : PacketKind
  pub control_type : ℕ
  pub sub_type : ℕ
  pub type_info : ℕ
  pub seq_number : ℕ
  pub message_info : ℕ
  pub timestamp : ℕ
  pub dest_socket_id : ℕ

-- `none` is the error for a short buffer.
unfoldable pub parse_header : Bytes → Option (Header × Bytes)
parse_header b =
    if ltb (length b) header_size
    then none
    else let first = be32_at b 0 in
      let second = be32_at b 4 in
      some (
        if has_bit first 31
            then record {
              kind = kind_control;
              control_type = first / 2 ^ 16 % 2 ^ 15;
              sub_type = first % 2 ^ 16;
              type_info = second;
              seq_number = 0;
              message_info = 0;
              timestamp = be32_at b 8;
              dest_socket_id = be32_at b 12;
            }
            else record {
              kind = kind_data;
              control_type = 0;
              sub_type = 0;
              type_info = 0;
              seq_number = first % 2 ^ 31;
              message_info = second;
              timestamp = be32_at b 8;
              dest_socket_id = be32_at b 12;
            },
        drop header_size b,
      )

-- Both marshallers write the first 16 bytes of `dst`, and nothing into a shorter one.
unfoldable pub marshal_data_header : Bytes → ℕ → ℕ → ℕ → ℕ → Bytes
marshal_data_header dst seq msg_info ts dest_id =
    if ltb (length dst) header_size
    then dst
    else put_be32 (seq % 2 ^ 31)
      ++ (put_be32 msg_info ++ (put_be32 ts ++ (put_be32 dest_id ++ drop header_size dst)))

unfoldable pub marshal_control_header : Bytes → ℕ → ℕ → ℕ → ℕ → ℕ → Bytes
marshal_control_header dst ctrl_type sub_type type_info ts dest_id =
    if ltb (length dst) header_size
    then dst
    else put_be32 (2 ^ 31 + ctrl_type % 2 ^ 15 * 2 ^ 16 + sub_type)
      ++ (put_be32 type_info ++ (put_be32 ts ++ (put_be32 dest_id ++ drop header_size dst)))
