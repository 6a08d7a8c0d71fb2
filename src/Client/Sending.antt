-- ===== src/Client/Sending.antt =====
-- inc/litemqtt/client.hpp: connecting, publishing, subscribing, disconnecting, and the timers.
use lite_mqtt.Prelude.{
  ℕ, ◌+◌, Bool, true, false, not, ◌||◌, none, some, List, [], ◌∷◌, length, ltb, leb, ◌==◌,
  if◌then◌else◌,
}
use lite_mqtt.Codec.Packets.Acks.{serialize_pubrel, serialize_pingreq, serialize_disconnect}
use lite_mqtt.Codec.Packets.Connect.{serialize_connect}
use lite_mqtt.Codec.Packets.Publish.{serialize_publish}
use lite_mqtt.Codec.Packets.Subscribe.{serialize_subscribe}
use lite_mqtt.Connection.Writes.{ConnectionState, connected, ErrorCode, start_connect, connect_done}
use lite_mqtt.Client.Maps.{find, insert, update}
use lite_mqtt.Client.{
  Callback, connect_sent, pingreq_sent, qos0_sent, publish_sent, pubrel_sent, subscribe_sent,
  disconnect_sent, calls_connect, starts_connect, PendingPublish, PendingPubrec, PingTimer, idle,
  waits_to_ping, waits_for_answer, Client, emit, call_publish, async_write_packet,
}
use lite_mqtt.Client.Session.{
  call_filters, arm_publish_retry_timer, arm_pubrec_retry_timer, close_conn, notify_closed_once,
  finish_publish_failure,
}
use lite_mqtt.Client.Ids.{acquire_packet_id}

unfoldable pub send_connect_packet : Client → Client
send_connect_packet c =
    async_write_packet
      (serialize_connect (record {
        client_id = c.client_id;
        keep_alive_seconds = c.keep_alive_seconds;
        clean_session = c.clean_session;
        username = c.username;
        password = c.password;
      }))
      connect_sent c

unfoldable pub call_connect : Bool → ℕ → Client → Client
call_connect success code c =
    if c.on_connect_cb then emit (calls_connect success code ∷ []) c else c

-- `has_callback` says whether a callback is given.
unfoldable pub async_connect : Bool → Client → Client
async_connect has_callback c = emit (starts_connect ∷ []) (record c {
  on_connect_cb = has_callback || c.on_connect_cb;
  closed = false;
  connect_timer = if ltb 0 c.connect_timeout_ms then true else c.connect_timer;
  conn = start_connect c.conn;
})

-- The handler that async_connect() hands to the connection.
unfoldable pub socket_connected : ErrorCode → Client → Client
unfolding send_connect_packet call_connect
socket_connected (some ec) c = if c.closed then c else call_connect false 255 c
socket_connected none c = if c.closed then c else send_connect_packet c

-- The host name is not resolved; the socket connects or does not.
unfoldable pub resolve_fails : ErrorCode → Client → Client
unfolding socket_connected
resolve_fails ec c = socket_connected ec c

unfoldable pub connect_completes : ErrorCode → Client → Client
unfolding socket_connected
connect_completes ec c = socket_connected ec (record c { conn = connect_done ec c.conn })

unfoldable pub handle_connect_timeout : Client → Client
unfolding call_connect
handle_connect_timeout c =
    if c.closed then c else call_connect false 255 (close_conn (record c { closed = true }))

pub publish_bytes : ℕ → PendingPublish → List ℕ
publish_bytes packet_id e = serialize_publish (record {
  packet_id = packet_id;
  qos = e.qos;
  dup = ltb 1 e.attempts;
  topic_name = e.topic;
  payload = e.payload;
})

unfoldable pub send_publish_entry : ℕ → Client → Client
unfolding publish_bytes
send_publish_entry packet_id c = elim (find packet_id c.pending_publishes) [
  | none ↦ c
  | some e ↦
      async_write_packet (publish_bytes packet_id e) (publish_sent packet_id)
        (arm_publish_retry_timer packet_id c)
]

unfoldable pub send_pubrel : ℕ → Client → Client
send_pubrel packet_id c =
    async_write_packet (serialize_pubrel (record { packet_id = packet_id })) (pubrel_sent packet_id)
      (arm_pubrec_retry_timer packet_id c)

abbrev pub max_pending_publishes : ℕ
max_pending_publishes = 1000

abbrev pub is_connected : ConnectionState → Bool
is_connected connected = true
is_connected _ = false

-- The entry of a new publish.
abbrev pub new_entry : List ℕ → List ℕ → ℕ → Callback → PendingPublish
new_entry topic payload qos callback = record {
  topic = topic;
  qos = qos;
  payload = payload;
  callback = callback;
  timer_armed = false;
  attempts = 1;
}

-- async_publish_impl() behind the call of acquire_packet_id().
unfoldable pub publish_with_id : PendingPublish → Client × ℕ → Client
unfolding send_publish_entry
publish_with_id e r =
    if r.1 == 0
    then emit (call_publish e.callback false e.topic e.qos 0) r.0
    else if leb max_pending_publishes (length r.0.pending_publishes)
    then emit (call_publish e.callback false e.topic e.qos 0) r.0
    else send_publish_entry r.1
        (record r.0 { pending_publishes = insert r.1 e r.0.pending_publishes })

unfoldable pub publish_qos0 : List ℕ → List ℕ → Callback → Client → Client
publish_qos0 topic payload callback =
    async_write_packet
      (serialize_publish
        (record { packet_id = 0; qos = 0; dup = false; topic_name = topic; payload = payload }))
      (qos0_sent callback topic)

unfoldable pub async_publish_impl : List ℕ → List ℕ → ℕ → Callback → Client → Client
unfolding publish_with_id publish_qos0
async_publish_impl topic payload qos callback c =
    let refused : Client = emit (call_publish callback false topic qos 0) c in
    if ltb 2 qos
    then refused
    else if c.closed
    then refused
    else if not (is_connected c.conn.state)
    then refused
    else if qos == 0
    then publish_qos0 topic payload callback c
    else publish_with_id (new_entry topic payload qos callback) (acquire_packet_id c)

unfoldable pub subscribe_with_id : List ℕ → ℕ → Callback → Client × ℕ → Client
subscribe_with_id topic qos callback r =
    let filters : List (List ℕ × ℕ) = (topic, qos) ∷ [] in
    if r.1 == 0
    then emit (call_filters callback false (λ _. 0) filters) r.0
    else async_write_packet
        (serialize_subscribe (record { packet_id = r.1; topic_filters = filters }))
        (subscribe_sent r.1)
        (record r.0 {
          pending_subscribes =
              insert r.1 (record { filters = filters; callback = callback }) r.0.pending_subscribes;
        })

unfoldable pub async_subscribe_impl : List ℕ → ℕ → Callback → Client → Client
unfolding subscribe_with_id
async_subscribe_impl topic qos callback c =
    let refused : Client = emit (call_filters callback false (λ _. 0) ((topic, qos) ∷ [])) c in
    if c.closed
    then refused
    else if ltb 2 qos
    then refused
    else subscribe_with_id topic qos callback (acquire_packet_id c)

unfoldable pub async_disconnect : Callback → Client → Client
async_disconnect on_closed c =
    async_write_packet serialize_disconnect (disconnect_sent on_closed)
      (record c { ping_timer = idle })

-- The retry timers expire.
unfoldable pub publish_timer_fires : ℕ → Client → Client
unfolding send_publish_entry
publish_timer_fires packet_id c = elim (find packet_id c.pending_publishes) [
  | none ↦ c
  | some e ↦
      if leb 3 e.attempts
      then finish_publish_failure packet_id c
      else send_publish_entry packet_id (record c {
        pending_publishes =
            update packet_id
              (λ (e : PendingPublish). record e { timer_armed = false; attempts = e.attempts + 1 })
              c.pending_publishes;
      })
]

unfoldable pub pubrec_timer_fires : ℕ → Client → Client
unfolding send_pubrel
pubrec_timer_fires packet_id c = elim (find packet_id c.pending_pubrecs) [
  | none ↦ c
  | some e ↦
      if leb 3 e.attempts
      then notify_closed_once c
      else send_pubrel packet_id (record c {
        pending_pubrecs =
            update packet_id
              (λ (e : PendingPubrec). record e { timer_armed = false; attempts = e.attempts + 1 })
              c.pending_pubrecs;
      })
]

-- The ping timer expires.
unfoldable pub ping_timer_fires : PingTimer → Client → Client
ping_timer_fires idle c = c
ping_timer_fires (waits_to_ping seconds) c =
    async_write_packet serialize_pingreq pingreq_sent (record c { ping_timer = idle })
ping_timer_fires (waits_for_answer seconds) c = notify_closed_once (record c { ping_timer = idle })
