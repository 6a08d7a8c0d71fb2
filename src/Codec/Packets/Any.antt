-- ===== src/Codec/Packets/Any.antt =====
-- The packets of inc/litemqtt/packets.hpp together: what each serialize() produces is one frame.
use lite_mqtt.Prelude.{ℕ, ◌≡◌, refl, true, List, [], ◌∷◌, ◌++◌, shr, bit_and}
use lite_mqtt.Codec.PacketType.{is_valid_packet_type}
use lite_mqtt.Codec.Writer.Laws.{uint16_bytes}
use lite_mqtt.Codec.Packets.Frame.{frame}
use lite_mqtt.Codec.Packets.Connect.{
  ConnectPacket, ConnackPacket, serialize_connect, serialize_connack, connect_body,
  serialize_connect_lem, serialize_connack_lem,
}
use lite_mqtt.Codec.Packets.Publish.{
  PublishPacket, serialize_publish, publish_first_byte, publish_body, serialize_publish_lem,
  publish_first_byte-type,
}
use lite_mqtt.Codec.Packets.Subscribe.{
  SubscribePacket, SubackPacket, UnsubscribePacket, serialize_subscribe, serialize_suback,
  serialize_unsubscribe, filters_bytes, topics_bytes, serialize_subscribe_lem, serialize_suback_lem,
  serialize_unsubscribe_lem,
}
use lite_mqtt.Codec.Packets.Acks.{
  AckPacket, serialize_puback, serialize_pubrec, serialize_pubrel, serialize_pubcomp,
  serialize_unsuback, serialize_pingreq, serialize_pingresp, serialize_disconnect, ack_frames,
  empty_frames,
}

-- A control packet of any type.
pub data Packet : Type 0 where
  connect : ConnectPacket → Packet
  connack : ConnackPacket → Packet
  publish : PublishPacket → Packet
  subscribe : SubscribePacket → Packet
  suback : SubackPacket → Packet
  unsubscribe : UnsubscribePacket → Packet
  puback pubrec pubrel pubcomp unsuback : AckPacket → Packet
  pingreq pingresp disconnect : Packet

pub serialize : Packet → List ℕ
serialize (connect p) = serialize_connect p
serialize (connack p) = serialize_connack p
serialize (publish p) = serialize_publish p
serialize (subscribe p) = serialize_subscribe p
serialize (suback p) = serialize_suback p
serialize (unsubscribe p) = serialize_unsubscribe p
serialize (puback p) = serialize_puback p
serialize (pubrec p) = serialize_pubrec p
serialize (pubrel p) = serialize_pubrel p
serialize (pubcomp p) = serialize_pubcomp p
serialize (unsuback p) = serialize_unsuback p
serialize pingreq = serialize_pingreq
serialize pingresp = serialize_pingresp
serialize disconnect = serialize_disconnect

-- The first byte of the frame, and what stands behind its length.
pub first_byte : Packet → ℕ
first_byte (connect p) = 0x10
first_byte (connack p) = 0x20
first_byte (publish p) = publish_first_byte p.qos p.dup
first_byte (subscribe p) = 0x82
first_byte (suback p) = 0x90
first_byte (unsubscribe p) = 0xA2
first_byte (puback p) = 0x40
first_byte (pubrec p) = 0x50
first_byte (pubrel p) = 0x62
first_byte (pubcomp p) = 0x70
first_byte (unsuback p) = 0xB0
first_byte pingreq = 0xC0
first_byte pingresp = 0xD0
first_byte disconnect = 0xE0

unfoldable pub body : Packet → List ℕ
body (connect p) = connect_body p
body (connack p) = bit_and p.session_present 0x01 ∷ p.return_code ∷ []
body (publish p) = publish_body p
body (subscribe p) = uint16_bytes p.packet_id ++ filters_bytes p.topic_filters
body (suback p) = uint16_bytes p.packet_id ++ p.return_codes
body (unsubscribe p) = uint16_bytes p.packet_id ++ topics_bytes p.topic_filters
body (puback p) = uint16_bytes p.packet_id
body (pubrec p) = uint16_bytes p.packet_id
body (pubrel p) = uint16_bytes p.packet_id
body (pubcomp p) = uint16_bytes p.packet_id
body (unsuback p) = uint16_bytes p.packet_id
body pingreq = []
body pingresp = []
body disconnect = []

-- Every packet goes out as one frame: its first byte, the length of its body, and its body.
pub serialize-frame : (p : Packet) → serialize p ≡ frame (first_byte p) (body p)
unfolding serialize first_byte body
serialize-frame (connect p) = serialize_connect_lem p
serialize-frame (connack p) = serialize_connack_lem p
serialize-frame (publish p) = serialize_publish_lem p
serialize-frame (subscribe p) = serialize_subscribe_lem p
serialize-frame (suback p) = serialize_suback_lem p
serialize-frame (unsubscribe p) = serialize_unsubscribe_lem p
serialize-frame (puback p) = (ack_frames p).0
serialize-frame (pubrec p) = (ack_frames p).1
serialize-frame (pubrel p) = (ack_frames p).2
serialize-frame (pubcomp p) = (ack_frames p).3
serialize-frame (unsuback p) = (ack_frames p).4
serialize-frame pingreq = empty_frames.0
serialize-frame pingresp = empty_frames.1
serialize-frame disconnect = empty_frames.2

-- Its first byte names a valid packet type, for any PUBLISH too.
pub first_byte-valid : (p : Packet) → is_valid_packet_type (shr (first_byte p) 4) ≡ true
unfolding first_byte is_valid_packet_type
first_byte-valid (connect p) = refl
first_byte-valid (publish p) = rw publish_first_byte-type refl
first_byte-valid _ = refl
