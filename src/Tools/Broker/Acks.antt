-- ===== src/Tools/Broker/Acks.antt =====
-- A PUBLISH of the library and the answer of chaos_broker to it.
use lite_mqtt.Prelude.{
  ℕ, ◌+◌, ◌/◌, ◌%◌, ◌^◌, ◌≤◌, ◌<◌, ◌≡◌, refl, ap, ◌∙◌, Bool, true, false, List, [], ◌∷◌, ◌++◌,
  arith, ltb, length, length-append, get_or, get_or-drop, drop, drop-append, drop-add, bit_and,
  bit_or, bit_or-shl, shl, shr, u8, u16,
}
use lite_mqtt.Prelude.Int.{ℤ}
use lite_mqtt.Codec.Writer.Laws.{uint16_bytes, string_bytes}
use lite_mqtt.Codec.Packets.Acks.{serialize_puback, ack_frames}
use lite_mqtt.Codec.Packets.Publish.{
  PublishPacket, serialize_publish, serialize_publish_lem, publish_first_byte, publish_body,
}
use lite_mqtt.Tools.Broker.{
  Peer, send, payload_seq, note_seq, acknowledge, take_publish, handle_publish, handle_packet,
  process, receive,
}
use lite_mqtt.Tools.Broker.Frames.{encoding_one, process-frame}

type_of :
    (dup : Bool)
    → let type = publish_first_byte 1 dup in
      (bit_and type 0xf0 ≡ 0x30) × (bit_and (shr type 1) 0x03 ≡ 1)
unfolding publish_first_byte
type_of true = (refl, refl)
type_of false = (refl, refl)

joined16 : (n : ℕ) → n < 2 ^ 16 → bit_or (shl (n / 256 % 256) 8) (n % 256) ≡ n
joined16 n h = omega (arith, bit_or-shl 8 (n / 256 % 256) (n % 256) (omega arith))

-- The packet id behind `front` in a body.
id_at :
    (front : List ℕ) (id : ℕ) (rest : List ℕ) (n : ℕ)
    → n ≡ length front
    → id < 2 ^ 16
    → let body = front ++ (uint16_bytes id ++ rest) in
      u16 (bit_or (shl (get_or body n 0) 8) (get_or body (n + 1) 0)) ≡ id
id_at front id rest n e h =
    let body = front ++ (uint16_bytes id ++ rest) in
    let here : get_or body n 0 ≡ id / 256 % 256 =
      get_or-drop n body 0 (drop-append front (uint16_bytes id ++ rest) n e) in
    let there : get_or body (n + 1) 0 ≡ id % 256 =
      get_or-drop (n + 1) body 0
        (drop-add n 1 body ∙ ap (drop 1) (drop-append front (uint16_bytes id ++ rest) n e)) in
    rw (here, there) (omega (arith, joined16 id h))

puback_bytes :
    (id : ℕ)
    → serialize_puback (record { packet_id = id }) ≡ 0x40 ∷ 0x02 ∷ u8 (shr id 8) ∷ u8 id ∷ []
puback_bytes id =
    (ack_frames (record { packet_id = id })).0
    ∙ ap (λ ds. 0x40 ∷ (ds ++ uint16_bytes id)) (encoding_one 2 (omega arith))

module _ (atoll : List ℕ → ℤ) where
  to_publish :
      (type : ℕ) (body : List ℕ) (p : Peer)
      → bit_and type 0xf0 ≡ 0x30
      → handle_packet atoll type body p ≡ handle_publish atoll type body p
  unfolding handle_packet
  to_publish type body p e = rw e refl

  to_take :
      (type : ℕ) (body : List ℕ) (n id : ℕ) (p : Peer)
      → bit_or (shl (get_or body 0 0) 8) (get_or body 1 0) ≡ n
      → bit_and (shr type 1) 0x03 ≡ 1
      → u16 (bit_or (shl (get_or body (2 + n) 0) 8) (get_or body (2 + n + 1) 0)) ≡ id
      → n + 4 ≤ length body
      → handle_publish atoll type body p ≡ take_publish atoll 1 id (2 + n + 2) body p
  unfolding handle_publish
  to_take type body n id p topic qos pid room =
      let a : ltb (length body) 2 ≡ false = ground arith in
      let b : ltb (length body) (2 + n) ≡ false = ground arith in
      let c : ltb (length body) (2 + n + 2) ≡ false = ground arith in
      rw (topic, qos, pid, a, b, c) refl

  noted :
      (seq : ℤ) (pid : ℕ) (p : Peer)
      → let q = note_seq atoll seq pid p in
        (q.sent ≡ p.sent)
        × (q.publishes ≡ p.publishes)
        × (q.framing_errors ≡ p.framing_errors)
        × (q.is_open ≡ p.is_open)
  unfolding note_seq
  noted seq pid p = (ground arith, ground arith, ground arith, ground arith)

  answered :
      (id offset : ℕ) (body : List ℕ) (p : Peer)
      → let p' = take_publish atoll 1 id offset body p in
        (p'.sent ≡ p.sent ++ serialize_puback (record { packet_id = id }) ∷ [])
        × (p'.publishes ≡ p.publishes + 1)
        × (p'.framing_errors ≡ p.framing_errors)
        × (p'.is_open ≡ p.is_open)
  unfolding take_publish acknowledge send
  answered id offset body p =
      let (s, n, f, o) = noted (payload_seq atoll (drop offset body)) id p in
      (rw (s, puback_bytes id) refl, ap (λ (k : ℕ). k + 1) n, f, o)

  body_taken :
      (topic payload : List ℕ) (id : ℕ) (dup : Bool) (p : Peer)
      → length topic < 2 ^ 16
      → id < 2 ^ 16
      → let body = string_bytes topic ++ (uint16_bytes id ++ payload) in
        handle_packet atoll (publish_first_byte 1 dup) body p
        ≡ take_publish atoll 1 id (2 + length topic + 2) body p
  body_taken topic payload id dup p ht hid =
      let type = publish_first_byte 1 dup in
      let body = string_bytes topic ++ (uint16_bytes id ++ payload) in
      let (kind, qos) = type_of dup in
      let counted : u16 (length topic) ≡ length topic = omega arith in
      let room = length-append (string_bytes topic) (uint16_bytes id ++ payload) in
      to_publish type body p kind
      ∙ to_take type body (length topic) id p (rw counted (joined16 (length topic) ht)) qos
          (id_at (string_bytes topic) id payload (2 + length topic) (omega arith) hid)
          (omega (arith, room))

  -- The stress program's broker takes a PUBLISH with QoS 1 that the library serialized as one packet,
  -- counts it, and answers with the PUBACK that the library serializes for its packet id: for any
  -- topic of less than 2 ^ 16 bytes, if the body has less than 128 ^ 3.
  pub receive-serialize_publish :
      (topic payload : List ℕ) (id : ℕ) (dup : Bool) (p : Peer)
      → length topic < 2 ^ 16
      → id < 2 ^ 16
      → length payload + length topic + 4 < 128 ^ 3
      → let pkt : PublishPacket = record {
        packet_id = id;
        qos = 1;
        dup = dup;
        topic_name = topic;
        payload = payload;
      } in
        let (buf, p') = receive atoll (serialize_publish pkt) ([], p) in
        (buf ≡ [])
        × (p'.sent ≡ p.sent ++ serialize_puback (record { packet_id = id }) ∷ [])
        × (p'.publishes ≡ p.publishes + 1)
        × (p'.framing_errors ≡ p.framing_errors)
  unfolding receive publish_body
  receive-serialize_publish topic payload id dup p ht hid hall =
      let body = string_bytes topic ++ (uint16_bytes id ++ payload) in
      let type = publish_first_byte 1 dup in
      let pkt : PublishPacket = record {
        packet_id = id;
        qos = 1;
        dup = dup;
        topic_name = topic;
        payload = payload;
      } in
      let small : length body < 128 ^ 3 =
        omega (arith, length-append (string_bytes topic) (uint16_bytes id ++ payload)) in
      let (s, n, f, o) = answered id (2 + length topic + 2) body p in
      let run : receive atoll (serialize_publish pkt) ([], p)
          ≡ ([], take_publish atoll 1 id (2 + length topic + 2) body p) =
        ap (λ zs. process atoll zs p) (serialize_publish_lem pkt)
        ∙ process-frame atoll type body p small
        ∙ ap (λ (q : Peer). ([], q)) (body_taken topic payload id dup p ht hid) in
      (
        ap (λ (o : List ℕ × Peer). o.0) run,
        ap (λ (o : List ℕ × Peer). o.1.sent) run ∙ s,
        ap (λ (o : List ℕ × Peer). o.1.publishes) run ∙ n,
        ap (λ (o : List ℕ × Peer). o.1.framing_errors) run ∙ f,
      )
