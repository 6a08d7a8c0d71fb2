-- ===== src/Codec/Packets/Connect.antt =====
-- inc/litemqtt/packets.hpp: CONNECT and CONNACK.
use lite_mqtt.Prelude.{
  ℕ, ◌+◌, ◌^◌, ◌<◌, ◌≡◌, refl, sym, ◌∙◌, Bool, true, false, not, List, [], ◌∷◌, ◌++◌, append_assoc,
  append-nil, arith, length, length-append, ◌≤◌, is_empty, if◌then◌else◌, ◌==◌, u8, shl, bit_and,
  bit_or,
}
use lite_mqtt.Codec.PacketType.{PacketType, to_uint8}
use lite_mqtt.Codec.Writer.{
  new_writer, writer_to, buffer, BufferWriter, write_uint8, write_uint16, write_string,
}
use lite_mqtt.Codec.Writer.Laws.{
  buffer-write_uint8, buffer-write_uint16, buffer-write_string, buffer-new, buffer-writer_to,
  uint16_bytes, string_bytes,
}
use lite_mqtt.Codec.Reader.{Got, BufferReader, read_uint8, read_uint16, read_string}
use lite_mqtt.Codec.Reader.Laws.{
  rest, Reads, read_uint8-Reads, read_uint16-Reads, read_string-Reads,
}
use lite_mqtt.Codec.Writer.Length.{encoding_lem, length_digits-last}
use lite_mqtt.Codec.Packets.Frame.{
  write_frame, frame, write_frame_lem, read_header, read_header_lem,
}

abbrev pub mqtt_protocol_level : ℕ
mqtt_protocol_level = 4

abbrev pub mqtt_protocol_name : List ℕ
mqtt_protocol_name = b'M' ∷ b'Q' ∷ b'T' ∷ b'T' ∷ []

pub record ConnectPacket : Type 0 where
  pub client_id : List ℕ
  pub keep_alive_seconds : ℕ
  pub clean_session : Bool
  pub username : List ℕ
  pub password : List ℕ

-- The three tests that build `connect_flags`.
pub connect_flags : Bool → Bool → Bool → ℕ
connect_flags clean has_username has_password =
    let flags = if clean then bit_or 0 0x02 else 0 in
    let flags = if has_username then bit_or flags 0x80 else flags in
    if has_password then bit_or flags 0x40 else flags

-- `if (!str.empty()) variable_header.write_string(str);`
write_optional : BufferWriter → List ℕ → BufferWriter
write_optional w str = if not (is_empty str) then write_string w str else w

pub serialize_connect : ConnectPacket → List ℕ
unfolding connect_flags write_optional
serialize_connect p =
    let vh = write_string new_writer mqtt_protocol_name in
    let vh = write_uint8 vh mqtt_protocol_level in
    let flags =
      connect_flags p.clean_session (not (is_empty p.username)) (not (is_empty p.password)) in
    let vh = write_uint8 vh flags in
    let vh = write_uint16 vh p.keep_alive_seconds in
    let vh = write_string vh p.client_id in
    let vh = write_optional vh p.username in
    let vh = write_optional vh p.password in
    write_frame (u8 (shl (to_uint8 PacketType.connect) 4)) vh

-- `if (has) reader.read_string(str);`, where `str` is empty before.
read_optional : Bool → BufferReader → Got (List ℕ)
read_optional has r =
    if has then read_string [] r else record { done = true; value = []; reader = r }

-- What parse() does behind the fixed header. The flags of the reads are not looked at.
read_connect : BufferReader → ConnectPacket
unfolding read_optional
read_connect r =
    let protocol_name = read_string [] r in
    let protocol_level = read_uint8 0 protocol_name.reader in
    let flags = read_uint8 0 protocol_level.reader in
    let has_username = not (bit_and flags.value 0x80 == 0) in
    let has_password = not (bit_and flags.value 0x40 == 0) in
    let keep_alive = read_uint16 0 flags.reader in
    let client_id = read_string [] keep_alive.reader in
    let username = read_optional has_username client_id.reader in
    let password = read_optional has_password username.reader in
    record {
      client_id = client_id.value;
      keep_alive_seconds = keep_alive.value;
      clean_session = not (bit_and flags.value 0x02 == 0);
      username = username.value;
      password = password.value;
    }

pub parse_connect : List ℕ → ConnectPacket
unfolding read_connect
parse_connect bytes = read_connect (read_header bytes).reader

abbrev optional_bytes : List ℕ → List ℕ
optional_bytes s = if not (is_empty s) then string_bytes s else []

buffer-write_optional :
    (w : BufferWriter) (s : List ℕ) → buffer (write_optional w s) ≡ buffer w ++ optional_bytes s
unfolding write_optional
buffer-write_optional w [] = sym (append-nil (buffer w))
buffer-write_optional w (c ∷ s) = buffer-write_string w (c ∷ s)

-- The bytes behind the fixed header.
pub connect_body : ConnectPacket → List ℕ
connect_body p =
    string_bytes mqtt_protocol_name
    ++ (mqtt_protocol_level
        ∷ connect_flags p.clean_session (not (is_empty p.username)) (not (is_empty p.password))
        ∷ (uint16_bytes p.keep_alive_seconds
            ++ (string_bytes p.client_id
                ++ (optional_bytes p.username ++ optional_bytes p.password))))

pub serialize_connect_lem : (p : ConnectPacket) → serialize_connect p ≡ frame 0x10 (connect_body p)
unfolding serialize_connect connect_body to_uint8
serialize_connect_lem p = simp (
  write_frame_lem, buffer-write_optional, buffer-write_string, buffer-write_uint8,
  buffer-write_uint16, buffer-new, append_assoc,
)

-- What the three flags say is read back from the byte.
connect_flags_lem :
    (c u p : Bool)
    → let flags = connect_flags c u p in
      (not (bit_and flags 0x02 == 0) ≡ c)
      × (not (bit_and flags 0x80 == 0) ≡ u)
      × (not (bit_and flags 0x40 == 0) ≡ p)
unfolding connect_flags
connect_flags_lem true true true = (refl, refl, refl)
connect_flags_lem true true false = (refl, refl, refl)
connect_flags_lem true false true = (refl, refl, refl)
connect_flags_lem true false false = (refl, refl, refl)
connect_flags_lem false true true = (refl, refl, refl)
connect_flags_lem false true false = (refl, refl, refl)
connect_flags_lem false false true = (refl, refl, refl)
connect_flags_lem false false false = (refl, refl, refl)

read_optional-Reads :
    (s xs : List ℕ) (r : BufferReader)
    → length s < 2 ^ 16
    → rest r ≡ optional_bytes s ++ xs
    → Reads (read_optional (not (is_empty s)) r) s xs
unfolding read_optional
read_optional-Reads [] xs r h e = record { done = refl; value = refl; rest_eq = e }
read_optional-Reads (c ∷ s) xs r h e = read_string-Reads [] (c ∷ s) xs r h e

length-optional_bytes : (s : List ℕ) → length (optional_bytes s) ≤ length s + 2
length-optional_bytes [] = omega arith
length-optional_bytes (c ∷ s) = omega arith

pub record FitsConnect (p : ConnectPacket) : Type 0 where
  pub client_id_fits : length p.client_id < 2 ^ 16
  pub keep_alive_fits : p.keep_alive_seconds < 2 ^ 16
  pub username_fits : length p.username < 2 ^ 16
  pub password_fits : length p.password < 2 ^ 16

length-connect_body : (p : ConnectPacket) → FitsConnect p → length (connect_body p) < 2 ^ 28
unfolding connect_body
length-connect_body p h = omega (
  arith,
  length-append p.client_id (optional_bytes p.username ++ optional_bytes p.password),
  length-append (optional_bytes p.username) (optional_bytes p.password),
  length-optional_bytes p.username,
  length-optional_bytes p.password,
)

read_connect_lem :
    (p : ConnectPacket) (r : BufferReader)
    → FitsConnect p
    → rest r ≡ connect_body p
    → read_connect r ≡ p
unfolding read_connect connect_body
read_connect_lem p r h e =
    let u = not (is_empty p.username) in
    let w = not (is_empty p.password) in
    let flags = connect_flags p.clean_session u w in
    let f = connect_flags_lem p.clean_session u w in
    let t6 : List ℕ = optional_bytes p.password in
    let t5 : List ℕ = optional_bytes p.username ++ t6 in
    let t4 : List ℕ = string_bytes p.client_id ++ t5 in
    let t3 : List ℕ = uint16_bytes p.keep_alive_seconds ++ t4 in
    let t2 : List ℕ = flags ∷ t3 in
    let s1 = read_string-Reads [] mqtt_protocol_name (mqtt_protocol_level ∷ t2) r (omega arith) e in
    let r1 = (read_string [] r).reader in
    let s2 = read_uint8-Reads 0 mqtt_protocol_level t2 r1 s1.rest_eq in
    let r2 = (read_uint8 0 r1).reader in
    let s3 = read_uint8-Reads 0 flags t3 r2 s2.rest_eq in
    let r3 = (read_uint8 0 r2).reader in
    let s4 = read_uint16-Reads 0 p.keep_alive_seconds t4 r3 h.keep_alive_fits s3.rest_eq in
    let r4 = (read_uint16 0 r3).reader in
    let s5 = read_string-Reads [] p.client_id t5 r4 h.client_id_fits s4.rest_eq in
    let r5 = (read_string [] r4).reader in
    let s6 = read_optional-Reads p.username t6 r5 h.username_fits s5.rest_eq in
    let r6 = (read_optional u r5).reader in
    let s7 =
      read_optional-Reads p.password [] r6 h.password_fits (s6.rest_eq ∙ sym (append-nil t6)) in
    rw (s3.value, f.0, f.1, f.2, s4.value, s5.value, s6.value, s7.value) refl

-- CONNECT is read back as it was sent, if the keep-alive fits in 16 bits and so do the lengths of
-- its three strings. An empty username or password is left out, and comes back empty.
pub parse-serialize_connect :
    (p : ConnectPacket) → FitsConnect p → parse_connect (serialize_connect p) ≡ p
unfolding parse_connect
parse-serialize_connect p h =
    let header = read_header_lem 0x10 (connect_body p) (length-connect_body p h) in
    rw serialize_connect_lem (read_connect_lem p _ h header.1)

pub record ConnackPacket : Type 0 where
  pub session_present : ℕ
  pub return_code : ℕ

pub serialize_connack : ConnackPacket → List ℕ
serialize_connack p =
    let writer = write_uint8 (writer_to []) (u8 (shl (to_uint8 PacketType.connack) 4)) in
    let writer = write_uint8 writer 2 in
    let writer = write_uint8 writer (bit_and p.session_present 0x01) in
    buffer (write_uint8 writer p.return_code)

pub parse_connack : List ℕ → ConnackPacket
parse_connack bytes =
    let session_present = read_uint8 0 (read_header bytes).reader in
    let return_code = read_uint8 0 session_present.reader in
    record { session_present = session_present.value; return_code = return_code.value }

pub serialize_connack_lem :
    (p : ConnackPacket)
    → serialize_connack p ≡ frame 0x20 (bit_and p.session_present 0x01 ∷ p.return_code ∷ [])
unfolding serialize_connack to_uint8
serialize_connack_lem p = simp (
  buffer-write_uint8,
  buffer-writer_to,
  encoding_lem 2 (omega arith),
  length_digits-last 4 2 (omega arith),
  append_assoc,
)

-- CONNACK is read back with its return code and the lowest bit of the session-present byte.
pub parse-serialize_connack :
    (p : ConnackPacket)
    → parse_connack (serialize_connack p)
      ≡ record { session_present = bit_and p.session_present 0x01; return_code = p.return_code }
unfolding parse_connack
parse-serialize_connack p =
    let flag = bit_and p.session_present 0x01 in
    let header = read_header_lem 0x20 (flag ∷ p.return_code ∷ []) (omega arith) in
    let r = (read_header (frame 0x20 (flag ∷ p.return_code ∷ []))).reader in
    let s1 = read_uint8-Reads 0 flag (p.return_code ∷ []) r header.1 in
    let s2 = read_uint8-Reads 0 p.return_code [] (read_uint8 0 r).reader s1.rest_eq in
    rw serialize_connack_lem (rw (s1.value, s2.value) refl)
