-- ===== src/Client/Settings.antt =====
-- inc/litemqtt/client.hpp: the settings of a client, its state and its destructor.
use lite_mqtt.Prelude.{ℕ, Bool, false, List, []}
use lite_mqtt.Prelude.Int.{ℤ, at_least_zero}
use lite_mqtt.Connection.Writes.{ConnectionState, disconnected, connecting, handshaking, connected}
use lite_mqtt.Client.{Callback, Client, idle}
use lite_mqtt.Client.Events.{Happening, publish_runs, subscribe_runs}
use lite_mqtt.Client.Session.{close_conn}

abbrev pub set_client_id : List ℕ → Client → Client
set_client_id id c = record c { client_id = id }

abbrev pub set_keep_alive : ℕ → Client → Client
set_keep_alive seconds c = record c { keep_alive_seconds = seconds }

abbrev pub set_clean_session : Bool → Client → Client
set_clean_session clean c = record c { clean_session = clean }

abbrev pub set_username : List ℕ → Client → Client
set_username username c = record c { username = username }

abbrev pub set_password : List ℕ → Client → Client
set_password password c = record c { password = password }

abbrev pub set_connect_timeout : ℤ → Client → Client
set_connect_timeout ms c = record c { connect_timeout_ms = at_least_zero ms }

-- Only whether there is a callback is kept.
abbrev pub on_connect : Bool → Client → Client
on_connect callback c = record c { on_connect_cb = callback }

abbrev pub on_message : Bool → Client → Client
on_message callback c = record c { on_message_cb = callback }

abbrev pub on_close : Bool → Client → Client
on_close callback c = record c { on_close_cb = callback }

abbrev pub state : Client → ConnectionState
state c = c.conn.state

-- ~mqtt_client()
pub destroy_client : Client → Client
destroy_client c =
    let c1 : Client = record c { ping_timer = idle; connect_timer = false; pending_pubrecs = [] } in
    elim c.conn.state [
      | disconnected ↦ c1
      | connecting ↦ close_conn c1
      | handshaking ↦ close_conn c1
      | connected ↦ close_conn c1
    ]

-- async_publish() and async_subscribe() post a task.
abbrev pub async_publish : List ℕ → List ℕ → ℕ → Callback → Happening
async_publish topic payload qos callback = publish_runs topic payload qos callback

abbrev pub async_subscribe : List ℕ → ℕ → Callback → Happening
async_subscribe topic qos callback = subscribe_runs topic qos callback
