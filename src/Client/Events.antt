-- ===== src/Client/Events.antt =====
-- inc/litemqtt/client.hpp: what the io thread can run for a session, one task or completion at a
-- time, in any order. Tasks that were posted and timers that expired are not tied to the state.
use lite_mqtt.Prelude.{ℕ, Bool, List, [], ◌∷◌}
use lite_mqtt.Connection.Asio.{AsioError}
use lite_mqtt.Connection.Writes.{WriteItem, ErrorCode, enqueue_write, fail_pending_writes}
use lite_mqtt.Client.{Callback, WriteTag, starts_read, Client, emit}
use lite_mqtt.Client.Session.{
  close_conn, perform, call_handler, notify_closed_once, close_client, write_completes,
}
use lite_mqtt.Client.Sending.{
  async_connect, resolve_fails, connect_completes, handle_connect_timeout, async_publish_impl,
  async_subscribe_impl, async_disconnect, publish_timer_fires, pubrec_timer_fires, ping_timer_fires,
}
use lite_mqtt.Client.Receiving.{handle_packet}

pub data Happening : Type 0 where
  connect_starts : Bool → Happening
  resolve_ends connect_ends write_ends : ErrorCode → Happening
  connect_times_out ping_timer_expires client_closes : Happening
  packet_arrives : List ℕ → Happening
  read_fails : AsioError → Happening
  publish_runs : List ℕ → List ℕ → ℕ → Callback → Happening
  subscribe_runs : List ℕ → ℕ → Callback → Happening
  disconnect_starts : Callback → Happening
  publish_timer_expires pubrec_timer_expires : ℕ → Happening
  enqueue_runs : WriteItem WriteTag → Happening
  posted_call_runs : WriteItem WriteTag → ErrorCode → Happening
  posted_fail_runs : AsioError → Happening

unfoldable pub client_step : Happening → Client → Client
client_step (connect_starts has_callback) c = async_connect has_callback c
client_step (resolve_ends ec) c = resolve_fails ec c
client_step (connect_ends ec) c = connect_completes ec c
client_step (write_ends ec) c = write_completes ec c
client_step connect_times_out c = handle_connect_timeout c
client_step ping_timer_expires c = ping_timer_fires c.ping_timer c
client_step client_closes c = close_client c
client_step (packet_arrives bytes) c = emit (starts_read ∷ []) (handle_packet bytes c)
client_step (read_fails ec) c = notify_closed_once c
client_step (publish_runs topic payload qos cb) c = async_publish_impl topic payload qos cb c
client_step (subscribe_runs topic qos cb) c = async_subscribe_impl topic qos cb c
client_step (disconnect_starts cb) c = async_disconnect cb c
client_step (publish_timer_expires packet_id) c = publish_timer_fires packet_id c
client_step (pubrec_timer_expires packet_id) c = pubrec_timer_fires packet_id c
client_step (enqueue_runs item) c =
    let r = enqueue_write item c.conn in perform close_conn r.1 (record c { conn = r.0 })
client_step (posted_call_runs item ec) c = call_handler close_conn item ec c
client_step (posted_fail_runs ec) c =
    let r = fail_pending_writes ec c.conn in perform close_conn r.1 (record c { conn = r.0 })

unfoldable pub client_run : List Happening → Client → Client
unfolding client_step
client_run [] c = c
client_run (h ∷ hs) c = client_run hs (client_step h c)
