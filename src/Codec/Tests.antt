-- ===== src/Codec/Tests.antt =====
-- The codec at concrete inputs.
use lite_mqtt.Prelude.{
  ℕ, ◌+◌, ◌-◌, ◌%◌, ◌^◌, false, replicate, ◌<◌, ◌≤◌, ◌≡◌, ◌↔◌, refl, true, List, [], ◌∷◌, ◌++◌,
  arith, length, u32, take, drop,
}
use lite_mqtt.Codec.PacketType.{is_valid_packet_type, is_valid_packet_type_iff}
use lite_mqtt.Codec.Writer.{
  new_writer, buffer, write_string, write_remaining_length, write_length_loop, length_rounds,
}
use lite_mqtt.Codec.Writer.Length.{write_length_loop-rounds}
use lite_mqtt.Codec.Reader.{
  BufferReader, new_reader, read_uint8, read_uint16, read_uint32, read_bytes, read_remaining_length,
  read_string,
}
use lite_mqtt.Codec.Reader.Laws.{Reads, read_string-cut}
use lite_mqtt.Codec.Reader.Length.{read-write_remaining_length, length_accepted}
use lite_mqtt.Codec.Reader.Bounds.{InBounds, reads-InBounds}
use lite_mqtt.Codec.Packets.Connect.{
  ConnectPacket, serialize_connect, parse_connect, parse-serialize_connect, serialize_connack,
  parse_connack, parse-serialize_connack,
}
use lite_mqtt.Codec.Packets.Publish.{
  PublishPacket, FitsPublish, serialize_publish, parse_publish, parse-serialize_publish,
}
use lite_mqtt.Codec.Packets.Subscribe.{
  SubackPacket, serialize_suback, parse_suback, parse-serialize_suback,
}
use lite_mqtt.Codec.Packets.Acks.{
  AckPacket, serialize_puback, serialize_pubrec, serialize_pubrel, serialize_pubcomp,
  serialize_unsuback, parse_puback, parse_pubrec, parse_pubrel, parse_pubcomp, parse_unsuback,
  parse-serialize_acks,
}
use lite_mqtt.Codec.Packets.Any.{Packet, serialize, body, first_byte, serialize-frame}
use lite_mqtt.Codec.Packets.Frame.{frame}

abbrev alice : ConnectPacket
alice = record {
  client_id = b'd' ∷ b'1' ∷ [];
  keep_alive_seconds = 300;
  clean_session = true;
  username = b'a' ∷ [];
  password = [];
}

abbrev news : PublishPacket
news = record {
  packet_id = 258;
  qos = 1;
  dup = true;
  topic_name = b't' ∷ b'/' ∷ [];
  payload = 7 ∷ 0 ∷ 255 ∷ [];
}

abbrev granted : SubackPacket
granted = record { packet_id = 3; return_codes = 1 ∷ 0x80 ∷ [] }

parse-serialize_connect_example : parse_connect (serialize_connect alice) ≡ alice
parse-serialize_connect_example = parse-serialize_connect alice (omega arith)

parse-serialize_connack_example :
    parse_connack (serialize_connack (record { session_present = 3; return_code = 5 }))
    ≡ record { session_present = 1; return_code = 5 }
parse-serialize_connack_example =
    parse-serialize_connack (record { session_present = 3; return_code = 5 })

news-Fits : FitsPublish news
news-Fits = record {
  qos_fits = omega arith;
  packet_id_fits = omega arith;
  packet_id_used = λ h. absurd (omega arith);
  topic_fits = omega arith;
  whole_fits = omega arith;
}

parse-serialize_publish_example : parse_publish (serialize_publish news) ≡ news
parse-serialize_publish_example = parse-serialize_publish news news-Fits

parse-serialize_suback_example : parse_suback (serialize_suback granted) ≡ granted
parse-serialize_suback_example = parse-serialize_suback granted (omega arith) (omega arith)

abbrev ack_513 : AckPacket
ack_513 = record { packet_id = 513 }

parse-serialize_acks_example :
    (parse_puback (serialize_puback ack_513) ≡ ack_513)
    × (parse_pubrec (serialize_pubrec ack_513) ≡ ack_513)
    × (parse_pubrel (serialize_pubrel ack_513) ≡ ack_513)
    × (parse_pubcomp (serialize_pubcomp ack_513) ≡ ack_513)
    × (parse_unsuback (serialize_unsuback ack_513) ≡ ack_513)
parse-serialize_acks_example = parse-serialize_acks ack_513 (omega arith)

read-write_remaining_length_example :
    Reads
      (read_remaining_length
        (new_reader (buffer (write_remaining_length new_writer 2_097_151) ++ 9 ∷ [])))
      2_097_151
      (9 ∷ [])
read-write_remaining_length_example = read-write_remaining_length 2_097_151 (9 ∷ []) (omega arith)

length_accepted_example :
    ((read_remaining_length
        (new_reader (buffer (write_remaining_length new_writer (2 ^ 28)) ++ []))).done
      ≡ true)
    ↔ (2 ^ 28 % 2 ^ 32 < 2 ^ 28)
length_accepted_example = length_accepted (2 ^ 28) []

write_length_loop-rounds_example :
    write_length_loop (3 + length_rounds) new_writer (u32 321)
    ≡ write_remaining_length new_writer 321
write_length_loop-rounds_example = write_length_loop-rounds 3 new_writer 321

-- 2 ^ 16 + 2 letters: the length field says 2.
abbrev long_string : List ℕ
long_string = replicate (2 ^ 16 + 2) b'h'

read_string-cut_example :
    Reads
      (read_string [] (new_reader (buffer (write_string new_writer long_string) ++ 9 ∷ [])))
      (take (length long_string % 2 ^ 16) long_string)
      (drop (length long_string % 2 ^ 16) long_string ++ 9 ∷ [])
read_string-cut_example = read_string-cut [] long_string (9 ∷ [])

serialize-frame_example :
    serialize (Packet.publish news)
    ≡ frame (first_byte (Packet.publish news)) (body (Packet.publish news))
serialize-frame_example = serialize-frame (Packet.publish news)

is_valid_packet_type_iff_example : (is_valid_packet_type 14 ≡ true) ↔ ((1 ≤ 14) × (14 ≤ 14))
is_valid_packet_type_iff_example = is_valid_packet_type_iff 14

-- Behind the only byte, 5 more bytes are refused and 2 ^ 64 - 1 are not.
abbrev at_end : BufferReader
at_end = record { buf = 7 ∷ []; pos = 1; overrun = false }

reads-InBounds_example :
    InBounds (7 ∷ []) (read_uint8 0 at_end).reader
    × InBounds (7 ∷ []) (read_uint16 0 at_end).reader
    × InBounds (7 ∷ []) (read_uint32 0 at_end).reader
    × InBounds (7 ∷ []) (read_string [] at_end).reader
    × InBounds (7 ∷ []) (read_bytes [] 5 at_end).reader
    × InBounds (7 ∷ []) (read_remaining_length at_end).reader
    × ((read_bytes [] (2 ^ 64 - 1) at_end).done ≡ true)
    × ((read_bytes [] (2 ^ 64 - 1) at_end).reader.overrun ≡ true)
reads-InBounds_example =
    reads-InBounds (7 ∷ []) [] 0 5 (2 ^ 64 - 1) at_end
      (record { same_buf = refl; within = omega arith; clean = refl }) (omega arith) (omega arith)
      (omega arith) (omega arith)
