-- ===== src/Codec/Packets/Publish.antt =====
-- inc/litemqtt/packets.hpp: PUBLISH.
use lite_mqtt.Prelude.{
  ℕ, zero, suc, ◌+◌, ◌^◌, ◌<◌, ◌≤◌, ◌≡◌, refl, sym, Bool, true, false, not, List, [], ◌++◌,
  append_assoc, append-nil, arith, length, length-append, replicate, length-zero, lt→ltb,
  ltb-false→le, if◌then◌else◌, ◌==◌, ltb, u8, shl, shr, bit_and, bit_or, bit_and_three, Bool-cases,
  inl, inr,
}
use lite_mqtt.Codec.PacketType.{PacketType, to_uint8}
use lite_mqtt.Codec.Writer.{
  new_writer, buffer, BufferWriter, write_uint16, write_string, write_bytes,
}
use lite_mqtt.Codec.Writer.Laws.{
  buffer-write_uint16, buffer-write_string, buffer-write_bytes, buffer-new, uint16_bytes,
  string_bytes,
}
use lite_mqtt.Codec.Reader.{Got, BufferReader, read_uint16, read_string, read_bytes, remaining}
use lite_mqtt.Codec.Reader.Laws.{
  rest, Reads, read_uint16-Reads, read_string-Reads, read_bytes-rest, remaining-rest,
}
use lite_mqtt.Codec.Reader.Bounds.{InBounds, read_string-InBounds, read_uint16-InBounds}
use lite_mqtt.Codec.Packets.Frame.{
  Header, write_frame, frame, write_frame_lem, read_header, read_header_lem, length-frame,
}

pub record PublishPacket : Type 0 where
  pub packet_id : ℕ
  pub qos : ℕ
  pub dup : Bool
  pub topic_name : List ℕ
  pub payload : List ℕ

-- The low four bits of the first byte: `flags` of serialize().
publish_flags : ℕ → Bool → ℕ
publish_flags qos dup =
    let flags = u8 (shl (bit_and qos 0x03) 1) in if dup then bit_or flags 0x08 else flags

unfoldable pub publish_first_byte : ℕ → Bool → ℕ
unfolding publish_flags to_uint8
publish_first_byte qos dup =
    u8 (bit_or (shl (to_uint8 PacketType.publish) 4) (publish_flags qos dup))

pub serialize_publish : PublishPacket → List ℕ
serialize_publish p =
    let vh = write_string new_writer p.topic_name in
    let vh = if ltb 0 p.qos then write_uint16 vh p.packet_id else vh in
    let vh = write_bytes vh p.payload in write_frame (publish_first_byte p.qos p.dup) vh

-- `if (pkt.qos > 0) reader.read_uint16(pkt.packet_id);`
read_packet_id : ℕ → BufferReader → Got ℕ
read_packet_id qos r =
    if ltb 0 qos then read_uint16 0 r else record { done = true; value = 0; reader = r }

-- The payload is all that is left; `payload.resize` fills it with zeros first.
read_payload : BufferReader → List ℕ
read_payload r =
    let payload_len = remaining r in
    if ltb 0 payload_len then (read_bytes (replicate payload_len 0) payload_len r).value else []

-- What parse() does behind the fixed header.
read_publish : Header → PublishPacket
unfolding read_packet_id read_payload
read_publish header =
    let first = header.packet_type_byte in
    let qos = bit_and (shr first 1) 0x03 in
    let topic_name = read_string [] header.reader in
    let packet_id = read_packet_id qos topic_name.reader in
    record {
      packet_id = packet_id.value;
      qos = qos;
      dup = not (bit_and (shr first 3) 0x01 == 0);
      topic_name = topic_name.value;
      payload = read_payload packet_id.reader;
    }

unfoldable pub parse_publish : List ℕ → PublishPacket
unfolding read_publish
parse_publish bytes = read_publish (read_header bytes)

abbrev packet_id_bytes : ℕ → ℕ → List ℕ
packet_id_bytes qos packet_id = if ltb 0 qos then uint16_bytes packet_id else []

-- The bytes behind the fixed header.
unfoldable pub publish_body : PublishPacket → List ℕ
publish_body p = string_bytes p.topic_name ++ (packet_id_bytes p.qos p.packet_id ++ p.payload)

buffer-write_packet_id :
    (w : BufferWriter) (qos packet_id : ℕ)
    → buffer (if ltb 0 qos then write_uint16 w packet_id else w)
      ≡ buffer w ++ packet_id_bytes qos packet_id
buffer-write_packet_id w qos packet_id =
    ground (arith, buffer-write_uint16 w packet_id, append-nil (buffer w))

pub serialize_publish_lem :
    (p : PublishPacket)
    → serialize_publish p ≡ frame (publish_first_byte p.qos p.dup) (publish_body p)
unfolding serialize_publish publish_body
serialize_publish_lem p = simp (
  write_frame_lem, buffer-write_bytes, buffer-write_packet_id, buffer-write_string, buffer-new,
  append_assoc,
)

-- The level of service and the duplicate flag are read back from the byte, for a level below 4.
publish_first_byte_lem :
    (qos : ℕ) (dup : Bool)
    → qos < 4
    → let first = publish_first_byte qos dup in
      (bit_and (shr first 1) 0x03 ≡ qos) × (not (bit_and (shr first 3) 0x01 == 0) ≡ dup)
unfolding publish_first_byte
publish_first_byte_lem zero true h = (refl, refl)
publish_first_byte_lem zero false h = (refl, refl)
publish_first_byte_lem (suc zero) true h = (refl, refl)
publish_first_byte_lem (suc zero) false h = (refl, refl)
publish_first_byte_lem (suc (suc zero)) true h = (refl, refl)
publish_first_byte_lem (suc (suc zero)) false h = (refl, refl)
publish_first_byte_lem (suc (suc (suc zero))) true h = (refl, refl)
publish_first_byte_lem (suc (suc (suc zero))) false h = (refl, refl)
publish_first_byte_lem (suc (suc (suc (suc q)))) dup h = absurd (omega arith)

first_byte_type :
    (q : ℕ) (dup : Bool)
    → q < 4
    → let flags = if dup then bit_or (u8 (shl q 1)) 0x08 else u8 (shl q 1) in
      shr (u8 (bit_or (shl 3 4) flags)) 4 ≡ 3
first_byte_type zero true h = refl
first_byte_type zero false h = refl
first_byte_type (suc zero) true h = refl
first_byte_type (suc zero) false h = refl
first_byte_type (suc (suc zero)) true h = refl
first_byte_type (suc (suc zero)) false h = refl
first_byte_type (suc (suc (suc zero))) true h = refl
first_byte_type (suc (suc (suc zero))) false h = refl
first_byte_type (suc (suc (suc (suc q)))) dup h = absurd (omega arith)

-- The upper half of the first byte is the type of PUBLISH.
pub publish_first_byte-type : (qos : ℕ) (dup : Bool) → shr (publish_first_byte qos dup) 4 ≡ 3
unfolding publish_first_byte
publish_first_byte-type qos dup = first_byte_type (bit_and qos 0x03) dup (bit_and_three qos)

pub record FitsPublish (p : PublishPacket) : Type 0 where
  pub qos_fits : p.qos < 4
  pub packet_id_fits : p.packet_id < 2 ^ 16
  pub packet_id_used : p.qos ≡ 0 → p.packet_id ≡ 0
  pub topic_fits : length p.topic_name < 2 ^ 16
  pub whole_fits : length p.topic_name + length p.payload + 4 < 2 ^ 28

length-packet_id_bytes : (qos packet_id : ℕ) → length (packet_id_bytes qos packet_id) ≤ 2
length-packet_id_bytes zero packet_id = omega arith
length-packet_id_bytes (suc qos) packet_id = ground arith

length-publish_body : (p : PublishPacket) → FitsPublish p → length (publish_body p) < 2 ^ 28
unfolding publish_body
length-publish_body p h = omega (
  arith,
  length-append p.topic_name (packet_id_bytes p.qos p.packet_id ++ p.payload),
  length-append (packet_id_bytes p.qos p.packet_id) p.payload,
  length-packet_id_bytes p.qos p.packet_id,
)

read_packet_id-Reads :
    (qos packet_id : ℕ) (xs : List ℕ) (r : BufferReader)
    → packet_id < 2 ^ 16
    → (qos ≡ 0 → packet_id ≡ 0)
    → rest r ≡ packet_id_bytes qos packet_id ++ xs
    → Reads (read_packet_id qos r) packet_id xs
unfolding read_packet_id
read_packet_id-Reads zero packet_id xs r h z e = record {
  done = refl;
  value = sym (z refl);
  rest_eq = e;
}
read_packet_id-Reads (suc qos) packet_id xs r h z e =
    let t : ltb 0 (suc qos) ≡ true = lt→ltb 0 (suc qos) (omega arith) in
    rw t (read_uint16-Reads 0 packet_id xs r h (rw t at e))

read_packet_id-InBounds :
    (buf : List ℕ) (qos : ℕ) (r : BufferReader)
    → InBounds buf r
    → InBounds buf (read_packet_id qos r).reader
unfolding read_packet_id
read_packet_id-InBounds buf qos r b = ground (arith, read_uint16-InBounds buf 0 r b)

read_payload-rest :
    (buf : List ℕ) (r : BufferReader)
    → InBounds buf r
    → length buf < 2 ^ 64
    → read_payload r ≡ rest r
unfolding read_payload
read_payload-rest buf r b w =
    let within : r.pos ≤ length r.buf = rw b.same_buf b.within in
    let short : length r.buf < 2 ^ 64 = rw b.same_buf w in
    let n = remaining-rest r within in
    elim (Bool-cases (ltb 0 (remaining r))) [
      | inl t ↦ rw t (read_bytes-rest (replicate (remaining r) 0) r within short)
      | inr f ↦ rw f (sym (length-zero (rest r) (omega (arith, n, ltb-false→le 0 (remaining r) f))))
    ]

-- PUBLISH is read back as it was sent, if its level of service is below 4, it has a packet id only
-- with a level above 0, its topic has less than 2 ^ 16 bytes and the whole fits in a packet.
pub parse-serialize_publish :
    (p : PublishPacket) → FitsPublish p → parse_publish (serialize_publish p) ≡ p
unfolding parse_publish read_publish publish_body
parse-serialize_publish p h =
    let first = publish_first_byte p.qos p.dup in
    let body : List ℕ = publish_body p in
    let bytes : List ℕ = frame first body in
    let small = length-publish_body p h in
    let header = read_header_lem first body small in
    let r = (read_header bytes).reader in
    let tail : List ℕ = packet_id_bytes p.qos p.packet_id ++ p.payload in
    let f = publish_first_byte_lem p.qos p.dup h.qos_fits in
    let s1 = read_string-Reads [] p.topic_name tail r h.topic_fits header.1 in
    let b1 = read_string-InBounds bytes [] r header.2 in
    let r1 = (read_string [] r).reader in
    let s2 =
      read_packet_id-Reads p.qos p.packet_id p.payload r1 h.packet_id_fits h.packet_id_used
        s1.rest_eq in
    let b2 = read_packet_id-InBounds bytes p.qos r1 b1 in
    let r2 = (read_packet_id p.qos r1).reader in
    let s3 = read_payload-rest bytes r2 b2 (omega (arith, length-frame first body, small)) in
    rw serialize_publish_lem (rw (header.0, f.0, f.1, s1.value, s2.value, s3, s2.rest_eq) refl)
