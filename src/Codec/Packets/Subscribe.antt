-- ===== src/Codec/Packets/Subscribe.antt =====
-- inc/litemqtt/packets.hpp: SUBSCRIBE, SUBACK and UNSUBSCRIBE.
use lite_mqtt.Prelude.{
  ℕ, zero, suc, ◌+◌, ◌^◌, ◌<◌, ◌≤◌, ◌≡◌, refl, sym, ◌∙◌, true, false, List, [], ◌∷◌, ◌++◌,
  append_assoc, append-nil, arith, length, length-append, u8, shl, bit_or, lt→not-leb,
}
use lite_mqtt.Codec.PacketType.{PacketType, to_uint8}
use lite_mqtt.Codec.Writer.{
  new_writer, buffer, BufferWriter, write_uint8, write_uint16, write_string,
}
use lite_mqtt.Codec.Writer.Laws.{
  buffer-write_uint8, buffer-write_uint16, buffer-write_string, buffer-new, uint16_bytes,
  string_bytes,
}
use lite_mqtt.Codec.Reader.{BufferReader, read_uint8, read_uint16, reader_empty}
use lite_mqtt.Codec.Reader.Laws.{rest, read_uint8-Reads, read_uint16-Reads, reader_empty-rest}
use lite_mqtt.Codec.Writer.Length.{encoding}
use lite_mqtt.Codec.Packets.Frame.{
  write_frame, frame, write_frame_lem, read_header, read_header_lem,
}

-- A topic filter and the level of service that is asked for.
abbrev pub TopicFilter : Type 0
TopicFilter = List ℕ × ℕ

pub record SubscribePacket : Type 0 where
  pub packet_id : ℕ
  pub topic_filters : List TopicFilter

write_filters : BufferWriter → List TopicFilter → BufferWriter
write_filters w [] = w
write_filters w ((topic, qos) ∷ tfs) = write_filters (write_uint8 (write_string w topic) qos) tfs

pub serialize_subscribe : SubscribePacket → List ℕ
unfolding write_filters
serialize_subscribe p =
    let vh = write_uint16 new_writer p.packet_id in
    write_frame (u8 (bit_or (shl (to_uint8 PacketType.subscribe) 4) 0x02))
      (write_filters vh p.topic_filters)

pub record SubackPacket : Type 0 where
  pub packet_id : ℕ
  pub return_codes : List ℕ

write_codes : BufferWriter → List ℕ → BufferWriter
write_codes w [] = w
write_codes w (rc ∷ rcs) = write_codes (write_uint8 w rc) rcs

pub serialize_suback : SubackPacket → List ℕ
unfolding write_codes
serialize_suback p =
    write_frame (u8 (shl (to_uint8 PacketType.suback) 4))
      (write_codes (write_uint16 new_writer p.packet_id) p.return_codes)

-- `while (!reader.empty())`: each round takes a byte.
read_codes : ℕ → BufferReader → List ℕ → List ℕ
read_codes zero r codes = codes
read_codes (suc fuel) r codes = elim (reader_empty r) [
  | true ↦ codes
  | false ↦ let rc = read_uint8 0 r in read_codes fuel rc.reader (codes ++ rc.value ∷ [])
]

-- The loop makes no more rounds than there are bytes.
pub parse_suback : List ℕ → SubackPacket
unfolding read_codes
parse_suback bytes =
    let packet_id = read_uint16 0 (read_header bytes).reader in
    record {
      packet_id = packet_id.value;
      return_codes = read_codes (length bytes) packet_id.reader [];
    }

pub record UnsubscribePacket : Type 0 where
  pub packet_id : ℕ
  pub topic_filters : List (List ℕ)

write_topics : BufferWriter → List (List ℕ) → BufferWriter
write_topics w [] = w
write_topics w (tf ∷ tfs) = write_topics (write_string w tf) tfs

pub serialize_unsubscribe : UnsubscribePacket → List ℕ
unfolding write_topics
serialize_unsubscribe p =
    write_frame (u8 (bit_or (shl (to_uint8 PacketType.unsubscribe) 4) 0x02))
      (write_topics (write_uint16 new_writer p.packet_id) p.topic_filters)

-- The payloads as bytes.
abbrev pub filters_bytes : List TopicFilter → List ℕ
filters_bytes [] = []
filters_bytes ((topic, qos) ∷ tfs) = (string_bytes topic ++ qos ∷ []) ++ filters_bytes tfs

abbrev pub topics_bytes : List (List ℕ) → List ℕ
topics_bytes [] = []
topics_bytes (tf ∷ tfs) = string_bytes tf ++ topics_bytes tfs

buffer-write_filters :
    (w : BufferWriter) (tfs : List TopicFilter)
    → buffer (write_filters w tfs) ≡ buffer w ++ filters_bytes tfs
unfolding write_filters
buffer-write_filters w [] = sym (append-nil (buffer w))
buffer-write_filters w ((topic, qos) ∷ tfs) =
    buffer-write_filters (write_uint8 (write_string w topic) qos) tfs
    ∙ simp (buffer-write_uint8, buffer-write_string, append_assoc)

buffer-write_topics :
    (w : BufferWriter) (tfs : List (List ℕ))
    → buffer (write_topics w tfs) ≡ buffer w ++ topics_bytes tfs
unfolding write_topics
buffer-write_topics w [] = sym (append-nil (buffer w))
buffer-write_topics w (tf ∷ tfs) =
    buffer-write_topics (write_string w tf) tfs ∙ simp (buffer-write_string, append_assoc)

buffer-write_codes :
    (w : BufferWriter) (rcs : List ℕ) → buffer (write_codes w rcs) ≡ buffer w ++ rcs
unfolding write_codes
buffer-write_codes w [] = sym (append-nil (buffer w))
buffer-write_codes w (rc ∷ rcs) =
    buffer-write_codes (write_uint8 w rc) rcs ∙ simp (buffer-write_uint8, append_assoc)

pub serialize_subscribe_lem :
    (p : SubscribePacket)
    → serialize_subscribe p ≡ frame 0x82 (uint16_bytes p.packet_id ++ filters_bytes p.topic_filters)
unfolding serialize_subscribe to_uint8
serialize_subscribe_lem p =
    simp (write_frame_lem, buffer-write_filters, buffer-write_uint16, buffer-new)

pub serialize_unsubscribe_lem :
    (p : UnsubscribePacket)
    → serialize_unsubscribe p
      ≡ frame 0xA2 (uint16_bytes p.packet_id ++ topics_bytes p.topic_filters)
unfolding serialize_unsubscribe to_uint8
serialize_unsubscribe_lem p =
    simp (write_frame_lem, buffer-write_topics, buffer-write_uint16, buffer-new)

pub serialize_suback_lem :
    (p : SubackPacket)
    → serialize_suback p ≡ frame 0x90 (uint16_bytes p.packet_id ++ p.return_codes)
unfolding serialize_suback to_uint8
serialize_suback_lem p = simp (write_frame_lem, buffer-write_codes, buffer-write_uint16, buffer-new)

-- With a round for each byte the loop reads them all.
read_codes-rest :
    (fuel : ℕ) (r : BufferReader) (xs codes : List ℕ)
    → rest r ≡ xs
    → length xs ≤ fuel
    → read_codes fuel r codes ≡ codes ++ xs
unfolding read_codes
read_codes-rest zero r [] codes e h = sym (append-nil codes)
read_codes-rest zero r (x ∷ xs) codes e h = elim h [ ]
read_codes-rest (suc fuel) r [] codes e h =
    let end : reader_empty r ≡ true = reader_empty-rest r ∙ rw e in
    rw (end, read_codes) (sym (append-nil codes))
read_codes-rest (suc fuel) r (x ∷ xs) codes e h =
    let more : reader_empty r ≡ false = reader_empty-rest r ∙ rw e (lt→not-leb _ 0 (omega arith)) in
    let g = read_uint8-Reads 0 x xs r e in
    rw (more, read_codes, g.value)
      (read_codes-rest fuel (read_uint8 0 r).reader xs (codes ++ x ∷ []) g.rest_eq (omega arith)
        ∙ append_assoc codes (x ∷ []) xs)

-- SUBACK is read back as it was sent, if its id fits in 16 bits and the whole fits in a packet.
pub parse-serialize_suback :
    (p : SubackPacket)
    → p.packet_id < 2 ^ 16
    → length p.return_codes + 2 < 2 ^ 28
    → parse_suback (serialize_suback p) ≡ p
unfolding parse_suback
parse-serialize_suback p hp hl =
    let body : List ℕ = uint16_bytes p.packet_id ++ p.return_codes in
    let bytes : List ℕ = frame 0x90 body in
    let header = read_header_lem 0x90 body (omega arith) in
    let r = (read_header bytes).reader in
    let s1 = read_uint16-Reads 0 p.packet_id p.return_codes r hp header.1 in
    let r1 = (read_uint16 0 r).reader in
    let enough : length p.return_codes ≤ length bytes =
      omega (arith, length-append (encoding (length body)) body) in
    rw serialize_suback_lem
      (rw (s1.value, read_codes-rest (length bytes) r1 p.return_codes [] s1.rest_eq enough) refl)
