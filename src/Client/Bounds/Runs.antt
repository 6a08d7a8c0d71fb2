-- ===== src/Client/Bounds/Runs.antt =====
-- The bounds of a session over its runs.
use lite_mqtt.Prelude.{ℕ, false, true, shr, none, some, List, is_empty, if_elim}
use lite_mqtt.Codec.PacketType.{PacketType, to_packet_type}
use lite_mqtt.Codec.Reader.{new_reader, read_uint8}
use lite_mqtt.Codec.Packets.Acks.{parse_puback, parse_pubrec, parse_pubcomp}
use lite_mqtt.Codec.Packets.Connect.{parse_connack}
use lite_mqtt.Codec.Packets.Publish.{parse_publish}
use lite_mqtt.Codec.Packets.Subscribe.{parse_suback}
use lite_mqtt.Connection.Writes.{ErrorCode, connect_done, enqueue_write, fail_pending_writes}
use lite_mqtt.Client.{PingTimer, idle, waits_to_ping, waits_for_answer, Client}
use lite_mqtt.Client.Session.{close_client, close_conn}
use lite_mqtt.Client.Sending.{
  async_connect, socket_connected, resolve_fails, connect_completes, handle_connect_timeout,
  send_connect_packet, async_disconnect, ping_timer_fires,
}
use lite_mqtt.Client.Receiving.{
  handle_packet, dispatch, handle_connack, handle_publish, handle_suback, handle_puback,
  handle_pubrec, handle_pubrel, handle_pubcomp, receive_puback, receive_pubrel,
}
use lite_mqtt.Client.Events.{
  Happening, connect_starts, resolve_ends, connect_ends, write_ends, connect_times_out,
  ping_timer_expires, client_closes, packet_arrives, read_fails, publish_runs, subscribe_runs,
  disconnect_starts, publish_timer_expires, pubrec_timer_expires, enqueue_runs, posted_call_runs,
  posted_fail_runs, client_step,
}
use lite_mqtt.Client.Bounds.{IsSound}
use lite_mqtt.Client.Bounds.Closing.{
  schedule_pingreq-IsSound, close_conn-IsSound, notify_closed_once-IsSound, call_handler-IsSound,
  perform-IsSound, write_completes-IsSound,
}
use lite_mqtt.Client.Bounds.Handlers.{
  publish_timer-IsSound, pubrec_timer-IsSound, complete_publish-IsSound, receive_pubrec-IsSound,
  receive_pubcomp-IsSound, receive_suback-IsSound, receive_publish-IsSound, call_connect-IsSound,
  return_code-IsSound, async_publish-IsSound, async_subscribe-IsSound,
}

socket-IsSound : (ec : ErrorCode) (c : Client) → IsSound c → IsSound (socket_connected ec c)
unfolding socket_connected send_connect_packet
socket-IsSound none c o = if_elim IsSound c.closed _ _ (λ _. o) (λ _. o)
socket-IsSound (some ec) c o =
    if_elim IsSound c.closed _ _ (λ _. o) (λ _. call_connect-IsSound false 255 c o)

timeout-IsSound : (c : Client) → IsSound c → IsSound (handle_connect_timeout c)
unfolding handle_connect_timeout
timeout-IsSound c o =
    if_elim IsSound c.closed _ _ (λ _. o)
      (λ _.
        let c' : Client = record c { closed = true } in
        call_connect-IsSound false 255 (close_conn c') (close_conn-IsSound c' o))

ping-IsSound : (t : PingTimer) (c : Client) → IsSound c → IsSound (ping_timer_fires t c)
unfolding ping_timer_fires
ping-IsSound idle c o = o
ping-IsSound (waits_to_ping seconds) c o = o
ping-IsSound (waits_for_answer seconds) c o =
    notify_closed_once-IsSound (record c { ping_timer = idle }) o

dispatch-IsSound :
    (t : PacketType) (bytes : List ℕ) (c : Client) → IsSound c → IsSound (dispatch t bytes c)
unfolding dispatch handle_connack handle_publish handle_suback handle_puback handle_pubrec
    handle_pubrel handle_pubcomp receive_puback receive_pubrel
dispatch-IsSound PacketType.connack bytes c o =
    return_code-IsSound (parse_connack bytes).return_code (record c { connect_timer = false }) o
dispatch-IsSound PacketType.publish bytes c o = receive_publish-IsSound (parse_publish bytes) c o
dispatch-IsSound PacketType.suback bytes c o =
    let p = parse_suback bytes in receive_suback-IsSound p.packet_id p.return_codes c o
dispatch-IsSound PacketType.puback bytes c o =
    complete_publish-IsSound (parse_puback bytes).packet_id c o
dispatch-IsSound PacketType.pubrec bytes c o =
    receive_pubrec-IsSound (parse_pubrec bytes).packet_id c o
dispatch-IsSound PacketType.pubrel bytes c o = o
dispatch-IsSound PacketType.pubcomp bytes c o =
    receive_pubcomp-IsSound (parse_pubcomp bytes).packet_id c o
dispatch-IsSound PacketType.pingresp bytes c o =
    schedule_pingreq-IsSound (record c { ping_timer = idle }) o
dispatch-IsSound _ bytes c o = o

handle_packet-IsSound : (bytes : List ℕ) (c : Client) → IsSound c → IsSound (handle_packet bytes c)
unfolding handle_packet
handle_packet-IsSound bytes c o =
    if_elim IsSound (is_empty bytes) _ _ (λ _. o)
      (λ _.
        dispatch-IsSound (to_packet_type (shr (read_uint8 0 (new_reader bytes)).value 4)) bytes c o)

pub client_step-IsSound : (h : Happening) (c : Client) → IsSound c → IsSound (client_step h c)
unfolding client_step close_client resolve_fails connect_completes async_disconnect async_connect
client_step-IsSound (connect_starts has_callback) c o = o
client_step-IsSound (resolve_ends ec) c o = socket-IsSound ec c o
client_step-IsSound (connect_ends ec) c o =
    socket-IsSound ec (record c { conn = connect_done ec c.conn }) o
client_step-IsSound (write_ends ec) c o = write_completes-IsSound ec c o
client_step-IsSound connect_times_out c o = timeout-IsSound c o
client_step-IsSound ping_timer_expires c o = ping-IsSound c.ping_timer c o
client_step-IsSound client_closes c o = close_conn-IsSound c o
client_step-IsSound (packet_arrives bytes) c o = handle_packet-IsSound bytes c o
client_step-IsSound (read_fails ec) c o = notify_closed_once-IsSound c o
client_step-IsSound (publish_runs topic payload qos cb) c o =
    async_publish-IsSound topic payload qos cb c o
client_step-IsSound (subscribe_runs topic qos cb) c o = async_subscribe-IsSound topic qos cb c o
client_step-IsSound (disconnect_starts cb) c o = o
client_step-IsSound (publish_timer_expires id) c o = publish_timer-IsSound id c o
client_step-IsSound (pubrec_timer_expires id) c o = pubrec_timer-IsSound id c o
client_step-IsSound (enqueue_runs item) c o =
    let r = enqueue_write item c.conn in
    perform-IsSound close_conn close_conn-IsSound r.1 (record c { conn = r.0 }) o
client_step-IsSound (posted_call_runs item ec) c o =
    call_handler-IsSound close_conn close_conn-IsSound item ec c o
client_step-IsSound (posted_fail_runs ec) c o =
    let r = fail_pending_writes ec c.conn in
    perform-IsSound close_conn close_conn-IsSound r.1 (record c { conn = r.0 }) o
