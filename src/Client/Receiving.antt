-- ===== src/Client/Receiving.antt =====
-- inc/litemqtt/client.hpp: the handlers of incoming packets.
pub mod Handshake
use lite_mqtt.Prelude.{
  ℕ, true, false, not, none, some, List, [], ◌∷◌, ◌++◌, length, ltb, ◌==◌, if◌then◌else◌, shr,
  is_empty,
}
use lite_mqtt.Codec.PacketType.{PacketType, to_packet_type}
use lite_mqtt.Codec.Reader.{new_reader, read_uint8}
use lite_mqtt.Codec.Packets.Acks.{
  parse_puback, parse_pubrec, parse_pubrel, parse_pubcomp, serialize_puback, serialize_pubrec,
  serialize_pubcomp,
}
use lite_mqtt.Codec.Packets.Connect.{parse_connack}
use lite_mqtt.Codec.Packets.Publish.{PublishPacket, parse_publish}
use lite_mqtt.Codec.Packets.Subscribe.{parse_suback}
use lite_mqtt.Connection.Writes.{mark_connected}
use lite_mqtt.Client.Maps.{find, insert, erase, update}
use lite_mqtt.Client.{
  Callback, reply_sent, calls_message, calls_subscribe, Output, PendingPublish, idle, Client, emit,
  call_publish, async_write_packet,
}
use lite_mqtt.Client.Session.{schedule_pingreq, close_conn, notify_closed_once}
use lite_mqtt.Client.Sending.{call_connect, send_pubrel}

unfoldable pub handle_return_code : ℕ → Client → Client
unfolding call_connect
handle_return_code code c = call_connect (code == 0) code (
    if code == 0
    then record c { conn = mark_connected c.conn; closed = false }
    else close_conn (record c { closed = true }))

unfoldable pub handle_connack : List ℕ → Client → Client
unfolding handle_return_code
handle_connack bytes c =
    handle_return_code (parse_connack bytes).return_code (record c { connect_timer = false })

-- What a received PUBLISH is answered with.
abbrev pub reply : ℕ → ℕ → Client → Client
reply qos packet_id c =
    if qos == 1
    then async_write_packet (serialize_puback (record { packet_id = packet_id })) reply_sent c
    else if qos == 2
    then async_write_packet (serialize_pubrec (record { packet_id = packet_id })) reply_sent c
    else c

unfoldable pub receive_publish : PublishPacket → Client → Client
receive_publish p c =
    let message_id = if p.qos == 0 then 0 else p.packet_id in
    let message = calls_message p.topic_name p.payload p.qos message_id ∷ [] in
    if ltb 2 p.qos
    then notify_closed_once c
    else reply p.qos p.packet_id (if c.on_message_cb then emit message c else c)

unfoldable pub handle_publish : List ℕ → Client → Client
unfolding receive_publish
handle_publish bytes c = receive_publish (parse_publish bytes) c

-- `cb(success, filters[i].first, qos_granted)` for each filter, with the code of the same index.
unfoldable pub call_granted : ℕ → List (List ℕ × ℕ) → List ℕ → List Output
call_granted cb [] codes = []
call_granted cb (f ∷ fs) [] = []
call_granted cb (f ∷ fs) (rc ∷ codes) =
    let success = not (rc == 0x80) in
    calls_subscribe cb success f.0 (if success then rc else 0) ∷ call_granted cb fs codes

unfoldable pub subscribe_granted : Callback → List (List ℕ × ℕ) → List ℕ → Client → Client
subscribe_granted none filters codes c = c
subscribe_granted (some cb) filters codes c =
    if ltb (length codes) (length filters)
    then notify_closed_once c
    else emit (call_granted cb filters codes) c

unfoldable pub receive_suback : ℕ → List ℕ → Client → Client
unfolding subscribe_granted
receive_suback packet_id codes c = elim (find packet_id c.pending_subscribes) [
  | none ↦ c
  | some p ↦
      subscribe_granted p.callback p.filters codes
        (record c { pending_subscribes = erase packet_id c.pending_subscribes })
]

unfoldable pub handle_suback : List ℕ → Client → Client
unfolding receive_suback
handle_suback bytes c = let p = parse_suback bytes in receive_suback p.packet_id p.return_codes c

-- A publish is done: its entry goes and its callback is called.
unfoldable pub complete_publish : ℕ → Client → Client
complete_publish packet_id c = elim (find packet_id c.pending_publishes) [
  | none ↦ c
  | some e ↦ record c {
    pending_publishes = erase packet_id c.pending_publishes;
    trace = c.trace ++ call_publish e.callback true e.topic e.qos packet_id;
  }
]

unfoldable pub receive_puback : ℕ → Client → Client
unfolding complete_publish
receive_puback packet_id c = complete_publish packet_id c

unfoldable pub receive_pubrec : ℕ → Client → Client
receive_pubrec packet_id c = elim (find packet_id c.pending_publishes) [
  | none ↦ c
  | some e ↦ send_pubrel packet_id (record c {
    pending_publishes =
        update packet_id (λ (e : PendingPublish). record e { timer_armed = false })
          c.pending_publishes;
    pending_pubrecs =
        insert packet_id (record { timer_armed = false; attempts = 0 }) c.pending_pubrecs;
  })
]

unfoldable pub receive_pubrel : ℕ → Client → Client
receive_pubrel packet_id c =
    async_write_packet (serialize_pubcomp (record { packet_id = packet_id })) reply_sent c

unfoldable pub receive_pubcomp : ℕ → Client → Client
unfolding complete_publish
receive_pubcomp packet_id c =
    complete_publish packet_id (record c { pending_pubrecs = erase packet_id c.pending_pubrecs })

unfoldable pub handle_puback : List ℕ → Client → Client
unfolding receive_puback
handle_puback bytes c = receive_puback (parse_puback bytes).packet_id c

unfoldable pub handle_pubrec : List ℕ → Client → Client
unfolding receive_pubrec
handle_pubrec bytes c = receive_pubrec (parse_pubrec bytes).packet_id c

unfoldable pub handle_pubrel : List ℕ → Client → Client
unfolding receive_pubrel
handle_pubrel bytes c = receive_pubrel (parse_pubrel bytes).packet_id c

unfoldable pub handle_pubcomp : List ℕ → Client → Client
unfolding receive_pubcomp
handle_pubcomp bytes c = receive_pubcomp (parse_pubcomp bytes).packet_id c

-- The switch of handle_packet().
unfoldable pub dispatch : PacketType → List ℕ → Client → Client
unfolding handle_connack handle_publish handle_suback handle_puback handle_pubrec handle_pubrel
    handle_pubcomp
dispatch PacketType.connack bytes c = handle_connack bytes c
dispatch PacketType.publish bytes c = handle_publish bytes c
dispatch PacketType.suback bytes c = handle_suback bytes c
dispatch PacketType.puback bytes c = handle_puback bytes c
dispatch PacketType.pubrec bytes c = handle_pubrec bytes c
dispatch PacketType.pubrel bytes c = handle_pubrel bytes c
dispatch PacketType.pubcomp bytes c = handle_pubcomp bytes c
dispatch PacketType.pingresp bytes c = schedule_pingreq (record c { ping_timer = idle })
dispatch _ bytes c = c

unfoldable pub handle_packet : List ℕ → Client → Client
unfolding dispatch
handle_packet bytes c =
    if is_empty bytes
    then c
    else dispatch (to_packet_type (shr (read_uint8 0 (new_reader bytes)).value 4)) bytes c
