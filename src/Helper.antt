-- ===== src/Helper.antt =====
-- inc/litemqtt/mqtt_helper.hpp: the state of a helper, which owns a client and connects again. A
-- callback of the application is a number.
pub mod Policy
pub mod Callbacks
pub mod Lifecycle
pub mod Events
pub mod Backoff
pub mod Delay
pub mod Orderly
pub mod Accounts
pub mod Restart
mod Tests
use lite_mqtt.Prelude.{ℕ, Bool, true, false, Option, none, List, [], ◌∷◌, ◌++◌, length}
pub use lite_mqtt.Prelude.Int.{ℤ, pos, negsuc}
use lite_mqtt.Client.{Client, Output}
use lite_mqtt.Client.Events.{Happening}

-- What is posted to the io_context: a task of a client, or that of rearm_reconnect(). The client is
-- known by how many were let go before it.
pub data Task : Type 0 where
  client_task : ℕ → Happening → Task
  rearms : Task

-- What the application sees: outputs of the client, and messages handed to its callback.
pub data Report : Type 0 where
  reports : Output → Report
  delivers : ℕ → List ℕ → List ℕ → ℕ → ℕ → Report

-- `timer` holds the milliseconds that reconnect_timer_ waits, and `late_waits` counts the waits of it
-- that were cancelled and whose completion has still to run. `released` are the clients that the
-- helper let go and that timers and handlers in the io_context may still hold, the last one first.
-- `connects` counts the calls of do_connect(). `io_thread` says whether io_thread_ is joinable,
-- `terminated` whether std::terminate() was called. The trace of the client is empty between two
-- operations: it goes to `seen`.
pub record Helper : Type 0 where
  pub client_id : List ℕ
  pub username : List ℕ
  pub password : List ℕ
  pub keep_alive_seconds : ℕ
  pub clean_session : Bool
  pub connect_timeout_ms : ℕ
  pub max_reconnect_attempts : ℤ
  pub base_reconnect_delay_ms : ℕ
  pub reconnect_attempts : ℕ
  pub initial_connect : Bool
  pub running : Bool
  pub should_reconnect : Bool
  pub reconnect_pending : Bool
  pub user_stopped : Bool
  pub client : Option Client
  pub timer : Option ℕ
  pub late_waits : ℕ
  pub released : List Client
  pub subscribes : List (List ℕ × ℕ)
  pub message_callback : Option ℕ
  pub tasks : List Task
  pub io_stopped : Bool
  pub io_thread : Bool
  pub terminated : Bool
  pub seen : List Report
  pub connects : ℕ

-- mqtt_helper::mqtt_helper()
abbrev pub new_helper : List ℕ → Helper
new_helper client_id = record {
  client_id = client_id;
  username = [];
  password = [];
  keep_alive_seconds = 60;
  clean_session = true;
  connect_timeout_ms = 10000;
  max_reconnect_attempts = pos 10;
  base_reconnect_delay_ms = 1000;
  reconnect_attempts = 0;
  initial_connect = true;
  running = false;
  should_reconnect = true;
  reconnect_pending = false;
  user_stopped = false;
  client = none;
  timer = none;
  late_waits = 0;
  released = [];
  subscribes = [];
  message_callback = none;
  tasks = [];
  io_stopped = false;
  io_thread = false;
  terminated = false;
  seen = [];
  connects = 0;
}

-- asio::post(io_, ...)
abbrev pub post_task : Task → Helper → Helper
post_task t h = record h { tasks = h.tasks ++ t ∷ [] }

-- A task for the client that the helper owns.
abbrev pub post_client_task : Happening → Helper → Helper
post_client_task t h = post_task (client_task (length h.released) t) h

abbrev pub see : List Output → List Report
see [] = []
see (o ∷ os) = reports o ∷ see os
