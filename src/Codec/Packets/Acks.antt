-- ===== src/Codec/Packets/Acks.antt =====
-- inc/litemqtt/packets.hpp: the packets that hold a packet id alone, and those that hold nothing.
use lite_mqtt.Prelude.{ℕ, ◌^◌, ◌<◌, ◌≡◌, refl, List, [], append_assoc, arith, u8, shl, bit_or}
use lite_mqtt.Codec.PacketType.{PacketType, to_uint8}
use lite_mqtt.Codec.Writer.{writer_to, buffer, write_uint8, write_uint16}
use lite_mqtt.Codec.Writer.Laws.{
  buffer-write_uint8, buffer-write_uint16, buffer-writer_to, uint16_bytes,
}
use lite_mqtt.Codec.Writer.Length.{encoding_lem, length_digits-last}
use lite_mqtt.Codec.Reader.{read_uint16}
use lite_mqtt.Codec.Reader.Laws.{read_uint16-Reads}
use lite_mqtt.Codec.Packets.Frame.{frame, read_header, read_header_lem}

-- puback_packet, pubrec_packet, pubrel_packet, pubcomp_packet and unsuback_packet have this one field.
pub record AckPacket : Type 0 where
  pub packet_id : ℕ

-- What their five serialize() functions do but for the first byte.
serialize_ack : ℕ → AckPacket → List ℕ
serialize_ack first p =
    buffer (write_uint16 (write_uint8 (write_uint8 (writer_to []) first) 2) p.packet_id)

-- Their five parse() functions are the same.
parse_ack : List ℕ → AckPacket
parse_ack bytes = record { packet_id = (read_uint16 0 (read_header bytes).reader).value }

pub serialize_puback : AckPacket → List ℕ
unfolding serialize_ack
serialize_puback p = serialize_ack (u8 (shl (to_uint8 PacketType.puback) 4)) p

pub serialize_pubcomp : AckPacket → List ℕ
unfolding serialize_ack
serialize_pubcomp p = serialize_ack (u8 (shl (to_uint8 PacketType.pubcomp) 4)) p

pub serialize_pubrel : AckPacket → List ℕ
unfolding serialize_ack
serialize_pubrel p = serialize_ack (u8 (bit_or (shl (to_uint8 PacketType.pubrel) 4) 0x02)) p

pub serialize_pubrec : AckPacket → List ℕ
unfolding serialize_ack
serialize_pubrec p = serialize_ack (u8 (shl (to_uint8 PacketType.pubrec) 4)) p

pub serialize_unsuback : AckPacket → List ℕ
unfolding serialize_ack
serialize_unsuback p = serialize_ack (u8 (shl (to_uint8 PacketType.unsuback) 4)) p

pub parse_puback : List ℕ → AckPacket
unfolding parse_ack
parse_puback bytes = parse_ack bytes

pub parse_pubcomp : List ℕ → AckPacket
unfolding parse_ack
parse_pubcomp bytes = parse_ack bytes

pub parse_pubrel : List ℕ → AckPacket
unfolding parse_ack
parse_pubrel bytes = parse_ack bytes

pub parse_pubrec : List ℕ → AckPacket
unfolding parse_ack
parse_pubrec bytes = parse_ack bytes

pub parse_unsuback : List ℕ → AckPacket
unfolding parse_ack
parse_unsuback bytes = parse_ack bytes

-- PINGREQ, PINGRESP and DISCONNECT: a first byte and an empty body.
serialize_empty : ℕ → List ℕ
serialize_empty first = buffer (write_uint8 (write_uint8 (writer_to []) first) 0)

pub serialize_pingreq : List ℕ
unfolding serialize_empty
serialize_pingreq = serialize_empty (u8 (shl (to_uint8 PacketType.pingreq) 4))

pub serialize_pingresp : List ℕ
unfolding serialize_empty
serialize_pingresp = serialize_empty (u8 (shl (to_uint8 PacketType.pingresp) 4))

pub serialize_disconnect : List ℕ
unfolding serialize_empty
serialize_disconnect = serialize_empty (u8 (shl (to_uint8 PacketType.disconnect) 4))

serialize_ack_lem :
    (first : ℕ) (p : AckPacket) → serialize_ack first p ≡ frame first (uint16_bytes p.packet_id)
unfolding serialize_ack
serialize_ack_lem first p = simp (
  buffer-write_uint16,
  buffer-write_uint8,
  buffer-writer_to,
  encoding_lem 2 (omega arith),
  length_digits-last 4 2 (omega arith),
  append_assoc,
)

serialize_empty_lem : (first : ℕ) → serialize_empty first ≡ frame first []
unfolding serialize_empty
serialize_empty_lem first = simp (
  buffer-write_uint8,
  buffer-writer_to,
  encoding_lem 0 (omega arith),
  length_digits-last 4 0 (omega arith),
)

parse-serialize_ack :
    (first : ℕ) (p : AckPacket) → p.packet_id < 2 ^ 16 → parse_ack (serialize_ack first p) ≡ p
unfolding parse_ack
parse-serialize_ack first p h =
    let body : List ℕ = uint16_bytes p.packet_id in
    let header = read_header_lem first body (omega arith) in
    let s = read_uint16-Reads 0 p.packet_id [] (read_header (frame first body)).reader h header.1 in
    rw serialize_ack_lem (rw s.value refl)

-- Each of the five acknowledgements is read back as it was sent, if its id fits in 16 bits.
pub parse-serialize_acks :
    (p : AckPacket)
    → p.packet_id < 2 ^ 16
    → (parse_puback (serialize_puback p) ≡ p)
      × (parse_pubrec (serialize_pubrec p) ≡ p)
      × (parse_pubrel (serialize_pubrel p) ≡ p)
      × (parse_pubcomp (serialize_pubcomp p) ≡ p)
      × (parse_unsuback (serialize_unsuback p) ≡ p)
unfolding serialize_puback serialize_pubrec serialize_pubrel serialize_pubcomp serialize_unsuback
    parse_puback parse_pubrec parse_pubrel parse_pubcomp parse_unsuback
parse-serialize_acks p h = (
  parse-serialize_ack _ p h,
  parse-serialize_ack _ p h,
  parse-serialize_ack _ p h,
  parse-serialize_ack _ p h,
  parse-serialize_ack _ p h,
)

-- The frames of the five acknowledgements and of the three packets without a body.
pub ack_frames :
    (p : AckPacket)
    → let body : List ℕ = uint16_bytes p.packet_id in
      (serialize_puback p ≡ frame 0x40 body)
      × (serialize_pubrec p ≡ frame 0x50 body)
      × (serialize_pubrel p ≡ frame 0x62 body)
      × (serialize_pubcomp p ≡ frame 0x70 body)
      × (serialize_unsuback p ≡ frame 0xB0 body)
unfolding serialize_puback serialize_pubrec serialize_pubrel serialize_pubcomp serialize_unsuback
    to_uint8
ack_frames p = (
  serialize_ack_lem 0x40 p,
  serialize_ack_lem 0x50 p,
  serialize_ack_lem 0x62 p,
  serialize_ack_lem 0x70 p,
  serialize_ack_lem 0xB0 p,
)

pub empty_frames :
    (serialize_pingreq ≡ frame 0xC0 [])
    × (serialize_pingresp ≡ frame 0xD0 [])
    × (serialize_disconnect ≡ frame 0xE0 [])
unfolding serialize_pingreq serialize_pingresp serialize_disconnect to_uint8
empty_frames = (serialize_empty_lem 0xC0, serialize_empty_lem 0xD0, serialize_empty_lem 0xE0)
