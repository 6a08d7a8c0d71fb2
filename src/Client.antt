-- ===== src/Client.antt =====
-- inc/litemqtt/client.hpp: an MQTT session over a connection; its state, and what its handlers do
-- that is seen outside of it. A callback of the application is a number; an empty one is `none`.
pub mod Maps
pub mod Session
pub mod Ids
pub mod Sending
pub mod Settings
pub mod Receiving
pub mod Events
pub mod ReadLoop
pub mod Accounts
pub mod Bounds
mod Tests
use lite_mqtt.Prelude.{ℕ, Bool, true, false, Option, none, some, List, [], ◌∷◌, ◌++◌}
use lite_mqtt.Connection.Writes.{Connection, WriteItem, Effect, new_connection}

abbrev pub Callback : Type 0
Callback = Option ℕ

-- The completion handlers of the client's writes, with what they capture.
pub data WriteTag : Type 0 where
  connect_sent reply_sent pingreq_sent : WriteTag
  qos0_sent : Callback → List ℕ → WriteTag
  publish_sent pubrel_sent subscribe_sent : ℕ → WriteTag
  disconnect_sent : Callback → WriteTag

pub data Output : Type 0 where
  calls_connect : Bool → ℕ → Output
  calls_message : List ℕ → List ℕ → ℕ → ℕ → Output
  calls_close : Output
  calls_publish : ℕ → Bool → List ℕ → ℕ → ℕ → Output
  calls_subscribe : ℕ → Bool → List ℕ → ℕ → Output
  calls_disconnected : ℕ → Output
  starts_connect starts_read : Output
  posts_write : WriteItem WriteTag → Output
  transport : Effect WriteTag → Output

pub record PendingPublish : Type 0 where
  pub topic : List ℕ
  pub qos : ℕ
  pub payload : List ℕ
  pub callback : Callback
  pub timer_armed : Bool
  pub attempts : ℕ

pub record PendingPubrec : Type 0 where
  pub timer_armed : Bool
  pub attempts : ℕ

pub record PendingSubscribe : Type 0 where
  pub filters : List (List ℕ × ℕ)
  pub callback : Callback

-- Which handler waits for the ping timer, and the seconds it waits.
pub data PingTimer : Type 0 where
  idle : PingTimer
  waits_to_ping waits_for_answer : ℕ → PingTimer

-- `trace` is what the handlers did so far, in order. The three flags say which callbacks are
-- installed. on_subscribe and on_publish install callbacks that nothing calls.
pub record Client : Type 0 where
  pub conn : Connection WriteTag
  pub client_id : List ℕ
  pub keep_alive_seconds : ℕ
  pub clean_session : Bool
  pub username : List ℕ
  pub password : List ℕ
  pub next_packet_id : ℕ
  pub on_connect_cb : Bool
  pub on_message_cb : Bool
  pub on_close_cb : Bool
  pub pending_subscribes : List (ℕ × PendingSubscribe)
  pub pending_publishes : List (ℕ × PendingPublish)
  pub pending_pubrecs : List (ℕ × PendingPubrec)
  pub ping_timer : PingTimer
  pub connect_timer : Bool
  pub connect_timeout_ms : ℕ
  pub closed : Bool
  pub trace : List Output

-- "litemqtt_cpp"
abbrev default_client_id : List ℕ
default_client_id = 108 ∷ 105 ∷ 116 ∷ 101 ∷ 109 ∷ 113 ∷ 116 ∷ 116 ∷ 95 ∷ 99 ∷ 112 ∷ 112 ∷ []

abbrev pub new_client : Client
new_client = record {
  conn = new_connection;
  client_id = default_client_id;
  keep_alive_seconds = 60;
  clean_session = true;
  username = [];
  password = [];
  next_packet_id = 1;
  on_connect_cb = false;
  on_message_cb = false;
  on_close_cb = false;
  pending_subscribes = [];
  pending_publishes = [];
  pending_pubrecs = [];
  ping_timer = idle;
  connect_timer = false;
  connect_timeout_ms = 10000;
  closed = false;
  trace = [];
}

abbrev pub emit : List Output → Client → Client
emit os c = record c { trace = c.trace ++ os }

-- conn_->async_write_packet(data, handler)
abbrev pub async_write_packet : List ℕ → WriteTag → Client → Client
async_write_packet bytes tag =
    emit (posts_write (record { buffer = bytes; handler = some tag }) ∷ [])

-- `if (cb) cb(...)`
abbrev pub call_publish : Callback → Bool → List ℕ → ℕ → ℕ → List Output
call_publish none success topic qos packet_id = []
call_publish (some cb) success topic qos packet_id =
    calls_publish cb success topic qos packet_id ∷ []

abbrev pub call_disconnected : Callback → List Output
call_disconnected none = []
call_disconnected (some cb) = calls_disconnected cb ∷ []
