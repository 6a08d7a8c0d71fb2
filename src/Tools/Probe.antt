-- ===== src/Tools/Probe.antt =====
-- tools/reconnect_probe.cc: framing_broker, which checks that the stream of a client is cut into
-- packets, and the PUBLISH packets that it pushes. The counters stay below 2 ^ 31.
use lite_mqtt.Prelude.{
  ℕ, zero, suc, ◌+◌, ◌*◌, ◌^◌, List, [], ◌∷◌, ◌++◌, ltb, ◌==◌, if◌then◌else◌, length, drop, bit_and,
  bit_or, shl, shr, u8,
}

pub record FramingBroker : Type 0 where
  pub publishes : ℕ
  pub pubacks : ℕ
  pub errors : ℕ
  pub sent : List (List ℕ)

abbrev pub new_framing_broker : FramingBroker
new_framing_broker = record { publishes = 0; pubacks = 0; errors = 0; sent = [] }

-- The loop over the bytes of the length; `shift <= 21` admits four of them.
pub data FrameLength : Type 0 where
  not_done : FrameLength
  done_with : ℕ → List ℕ → FrameLength

unfoldable pub read_frame_length : ℕ → ℕ → List ℕ → FrameLength
read_frame_length shift len [] = not_done
read_frame_length shift len (b ∷ bytes) =
    let len' = bit_or len (shl (bit_and b 0x7f) shift) in
    let more = read_frame_length (shift + 7) len' bytes in
    if ltb 21 shift then not_done else if bit_and b 0x80 == 0 then done_with len' bytes else more

-- What the broker counts and answers for a packet.
unfoldable pub count_packet : ℕ → ℕ → FramingBroker → FramingBroker
count_packet type len b =
    if type == 3
    then record b {
      publishes = b.publishes + 1;
      errors = if ltb len 2 then b.errors + 1 else b.errors;
    }
    else if type == 4
    then record b { pubacks = b.pubacks + 1 }
    else if type == 1
    then record b { sent = b.sent ++ (0x20 ∷ 0x02 ∷ 0x00 ∷ 0x00 ∷ []) ∷ [] }
    else b

-- One round of the outer loop, with the rounds that follow it.
unfoldable pub parse_next :
    (List ℕ → FramingBroker → List ℕ × FramingBroker)
    → ℕ
    → FrameLength
    → List ℕ
    → FramingBroker
    → List ℕ × FramingBroker
parse_next rounds type not_done buf b = (buf, b)
parse_next rounds type (done_with len rest) buf b =
    if ltb (16 * 2 ^ 20) len
    then ([], record b { errors = b.errors + 1 })
    else if ltb (length rest) len
    then (buf, b)
    else rounds (drop len rest) (count_packet type len b)

-- Each packet takes at least two bytes, so the length of the buffer is fuel enough.
unfoldable pub parse_loop : ℕ → List ℕ → FramingBroker → List ℕ × FramingBroker
parse_loop zero buf b = (buf, b)
parse_loop (suc fuel) [] b = ([], b)
parse_loop (suc fuel) (first ∷ []) b = (first ∷ [], b)
parse_loop (suc fuel) (first ∷ byte ∷ bytes) b =
    parse_next (parse_loop fuel) (shr first 4) (read_frame_length 0 0 (byte ∷ bytes))
      (first ∷ byte ∷ bytes) b

unfoldable pub parse : List ℕ → FramingBroker → List ℕ × FramingBroker
parse buf b = parse_loop (length buf) buf b

-- The packets of push_qos1(), from `count` on: topic "srv", payload "01234567".
unfoldable pub pushed_publish : ℕ → List ℕ
pushed_publish count =
    let topic = 115 ∷ 114 ∷ 118 ∷ [] in
    let payload = 48 ∷ 49 ∷ 50 ∷ 51 ∷ 52 ∷ 53 ∷ 54 ∷ 55 ∷ [] in
    0x32
    ∷ u8 (2 + length topic + 2 + length payload)
    ∷ 0x00
    ∷ u8 (length topic)
    ∷ (topic ++ (u8 (shr count 8) ∷ u8 (bit_and count 0xff) ∷ payload))
