-- ===== src/Helper/Lifecycle.antt =====
-- inc/litemqtt/mqtt_helper.hpp: start and stop.
use lite_mqtt.Prelude.{
  List, [], ◌∷◌, Bool, true, false, Option, none, some, is_empty, ◌||◌, if◌then◌else◌,
}
use lite_mqtt.Client.{Client, new_client}
use lite_mqtt.Client.Session.{close_client}
use lite_mqtt.Client.Sending.{async_disconnect}
use lite_mqtt.Client.Settings.{
  set_client_id, set_keep_alive, set_clean_session, set_username, set_password, set_connect_timeout,
  on_connect, on_message, on_close,
}
use lite_mqtt.Helper.{pos, Helper}
use lite_mqtt.Helper.Policy.{do_connect, cancel_wait}
use lite_mqtt.Helper.Callbacks.{react_all, with_client}

-- The client of init_client().
unfoldable pub configured_client : Helper → Client
configured_client h =
    let c1 = set_client_id h.client_id new_client in
    let c2 = set_clean_session h.clean_session (set_keep_alive h.keep_alive_seconds c1) in
    let c3 = set_connect_timeout (pos h.connect_timeout_ms) c2 in
    let c4 = if is_empty h.username then c3 else set_username h.username c3 in
    if is_empty h.password then c4 else set_password h.password c4

-- A client that the helper drops lives on while handlers in the io_context hold it.
pub let_go : Option Client → List Client → List Client
let_go none cs = cs
let_go (some c) cs = record c { trace = [] } ∷ cs

unfoldable pub init_client : Helper → Helper
unfolding configured_client let_go
init_client h = record h {
  client = some (configured_client h);
  released = let_go h.client h.released;
}

-- setup_callbacks()
unfoldable pub install_callbacks : Option Client → Option Client
install_callbacks none = none
install_callbacks (some c) = some (on_connect true (on_close true (on_message true c)))

unfoldable pub setup_callbacks : Helper → Helper
unfolding install_callbacks
setup_callbacks h = record h { client = install_callbacks h.client }

-- io_thread_ is assigned: if it is joinable then, std::thread calls std::terminate().
unfoldable pub start_io_thread : Helper → Helper
start_io_thread h = record h {
  running = true;
  terminated = h.terminated || h.io_thread;
  io_thread = true;
}

unfoldable pub start : Helper → Helper
unfolding init_client setup_callbacks do_connect start_io_thread
start h =
    if h.running
    then h
    else start_io_thread (
        do_connect (
          setup_callbacks (
            init_client (record h {
              user_stopped = false;
              should_reconnect = true;
              reconnect_pending = false;
              reconnect_attempts = 0;
              initial_connect = true;
              io_stopped = false;
            }))))

-- The client's callbacks are cleared, then it is closed, and the helper lets it go. What it does at the
-- close goes to the helper; its entries stay with it.
unfoldable pub silenced : Client → Client
silenced c = on_connect false (on_close false (on_message false c))

unfoldable pub release_with : Option Client → Helper → Helper
unfolding react_all silenced
release_with none h = h
release_with (some c) h =
    let closed = close_client (silenced c) in
    react_all closed.trace
      (record h { client = none; released = record closed { trace = [] } ∷ h.released })

unfoldable pub release_client : Helper → Helper
unfolding release_with
release_client h = release_with h.client h

unfoldable pub has_client : Option Client → Bool
has_client none = false
has_client (some c) = true

-- stop() up to the point where it waits for the io thread, or, on the io thread, returns.
unfoldable pub stop_begins : Bool → Helper → Helper
unfolding with_client cancel_wait
stop_begins on_io_thread h =
    let h' : Helper = record h {
      user_stopped = true;
      should_reconnect = false;
      timer = none;
      late_waits = cancel_wait h.timer h.late_waits;
      reconnect_pending = false;
      running = false;
    } in
    if on_io_thread
    then with_client (async_disconnect (some 0)) h'.client
        (record h' { io_stopped = if has_client h'.client then h.io_stopped else true })
    else if h.running
    then with_client (async_disconnect (some 1)) h'.client h'
    else h'

-- The rest of stop(), behind the wait: the loop is stopped, its thread joined and the client released.
unfoldable pub stop_ends : Helper → Helper
unfolding release_client
stop_ends h =
    release_client
      (record h { io_stopped = if h.io_thread then true else h.io_stopped; io_thread = false })
