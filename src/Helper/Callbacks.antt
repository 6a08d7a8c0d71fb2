-- ===== src/Helper/Callbacks.antt =====
-- inc/litemqtt/mqtt_helper.hpp: the callbacks that a helper installs in its client, and what the
-- application asks of the client through it.
use lite_mqtt.Prelude.{
  ℕ, length, Bool, true, false, not, Option, none, some, List, [], ◌∷◌, ◌++◌, if◌then◌else◌, ◌==◌,
}
use lite_mqtt.Client.{
  Callback, Output, calls_connect, calls_message, calls_close, calls_publish, calls_subscribe,
  calls_disconnected, starts_connect, starts_read, posts_write, transport, Client, call_publish,
}
use lite_mqtt.Client.Sending.{is_connected}
use lite_mqtt.Client.Settings.{async_publish, async_subscribe}
use lite_mqtt.Helper.{Report, reports, delivers, Helper, post_client_task, see}
use lite_mqtt.Helper.Policy.{connect_callback, close_callback}

-- `if (callback) callback(...)` with the helper's message callback.
unfoldable pub deliver : Option ℕ → List ℕ → List ℕ → ℕ → ℕ → List Report
deliver none topic payload qos packet_id = []
deliver (some cb) topic payload qos packet_id = delivers cb topic payload qos packet_id ∷ []

-- async_disconnect() of the client is called by stop() alone, on the io thread with callback 0, which
-- stops the loop, and elsewhere with callback 1, which wakes stop().
unfoldable pub disconnected_callback : ℕ → Helper → Helper
disconnected_callback cb h = if cb == 0 then record h { io_stopped = true } else h

-- What the helper does at one output of its client.
unfoldable pub react : Output → Helper → Helper
unfolding deliver disconnected_callback
react (calls_connect success code) h = connect_callback success h
react (calls_message topic payload qos packet_id) h = record h {
  seen = h.seen ++ deliver h.message_callback topic payload qos packet_id;
}
react calls_close h = close_callback h
react (calls_disconnected cb) h = disconnected_callback cb h
react (calls_publish cb success topic qos packet_id) h = record h {
  seen = h.seen ++ reports (calls_publish cb success topic qos packet_id) ∷ [];
}
react (calls_subscribe cb success topic qos) h = record h {
  seen = h.seen ++ reports (calls_subscribe cb success topic qos) ∷ [];
}
react starts_connect h = h
react starts_read h = h
react (posts_write item) h = h
react (transport e) h = h

unfoldable pub react_all : List Output → Helper → Helper
unfolding react
react_all [] h = h
react_all (o ∷ os) h = react_all os (react o h)

-- An operation of the client, and what the helper does at the callbacks that it calls.
unfoldable pub with_client : (Client → Client) → Option Client → Helper → Helper
unfolding react_all
with_client f none h = h
with_client f (some c) h =
    let c' = f c in react_all c'.trace (record h { client = some (record c' { trace = [] }) })

-- The same for the client before which `k` were let go; it may have been let go too. The callbacks of a client that was let go may still be installed.
unfoldable pub with_released : (Client → Client) → ℕ → List Client → List Client → Helper → Helper
unfolding react_all with_client
with_released f k before [] h = with_client f h.client h
with_released f k before (c ∷ cs) h =
    let newer = with_released f k (before ++ c ∷ []) cs h in
    let c' = f c in
    if length cs == k
    then react_all c'.trace (record h { released = before ++ record c' { trace = [] } ∷ cs })
    else newer

unfoldable pub on_message : Option ℕ → Helper → Helper
on_message callback h = record h { message_callback = callback }

pub has_connection : Option Client → Bool
has_connection none = false
has_connection (some c) = is_connected c.conn.state

unfoldable pub subscribe : List ℕ → ℕ → Callback → Helper → Helper
unfolding has_connection
subscribe topic qos callback h =
    let h' : Helper = record h { subscribes = h.subscribes ++ (topic, qos) ∷ [] } in
    if not (has_connection h'.client)
    then h'
    else post_client_task (async_subscribe topic qos callback) h'

unfoldable pub publish_on : Option Client → List ℕ → List ℕ → ℕ → Callback → Helper → Helper
publish_on none topic payload qos callback h = record h {
  seen = h.seen ++ see (call_publish callback false topic qos 0);
}
publish_on (some c) topic payload qos callback h =
    post_client_task (async_publish topic payload qos callback) h

unfoldable pub publish : List ℕ → List ℕ → ℕ → Callback → Helper → Helper
unfolding publish_on
publish topic payload qos callback h = publish_on h.client topic payload qos callback h
