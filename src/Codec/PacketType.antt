-- ===== src/Codec/PacketType.antt =====
-- inc/litemqtt/packet_type.hpp: the control packet types.
use lite_mqtt.Prelude.{
  ℕ, ◌≤◌, ◌≡◌, Bool, true, ◌&&◌, not, List, [], ◌∷◌, arith, leb, ◌==◌, get_or, ◌↔◌,
}

-- A value of the enumeration. `unnamed` holds the values of its underlying type, uint8_t, for which
-- there is no enumerator.
pub data PacketType : Type 0 where
  reserved0 connect connack publish puback pubrec pubrel pubcomp subscribe suback : PacketType
  unsubscribe unsuback pingreq pingresp disconnect reserved15 : PacketType
  unnamed : ℕ → PacketType

unfoldable pub to_uint8 : PacketType → ℕ
to_uint8 reserved0 = 0
to_uint8 connect = 1
to_uint8 connack = 2
to_uint8 publish = 3
to_uint8 puback = 4
to_uint8 pubrec = 5
to_uint8 pubrel = 6
to_uint8 pubcomp = 7
to_uint8 subscribe = 8
to_uint8 suback = 9
to_uint8 unsubscribe = 10
to_uint8 unsuback = 11
to_uint8 pingreq = 12
to_uint8 pingresp = 13
to_uint8 disconnect = 14
to_uint8 reserved15 = 15
to_uint8 (unnamed n) = n

unfoldable pub is_valid_packet_type : ℕ → Bool
is_valid_packet_type byte = leb 1 byte && leb byte 14 && not (byte == 0) && not (byte == 15)

-- The enumerators, in the order of their values from 0 on.
abbrev enumerators : List PacketType
enumerators =
    reserved0 ∷ connect ∷ connack ∷ publish ∷ puback ∷ pubrec ∷ pubrel ∷ pubcomp ∷ subscribe
    ∷ suback ∷ unsubscribe ∷ unsuback ∷ pingreq ∷ pingresp ∷ disconnect ∷ reserved15 ∷ []

unfoldable pub to_packet_type : ℕ → PacketType
to_packet_type byte = get_or enumerators byte (unnamed byte)

-- The valid types are those from 1 to 14.
pub is_valid_packet_type_iff : (n : ℕ) → (is_valid_packet_type n ≡ true) ↔ ((1 ≤ n) × (n ≤ 14))
unfolding is_valid_packet_type
is_valid_packet_type_iff n = ground arith
