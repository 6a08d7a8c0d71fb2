-- ===== src/Client/Session.antt =====
-- inc/litemqtt/client.hpp: the end of a session, and the completion handlers of its writes.
pub mod Depth
pub mod Closed
use lite_mqtt.Prelude.{
  ℕ, zero, suc, ◌/◌, Bool, true, false, not, ◌&&◌, Option, none, some, List, [], ◌∷◌, ◌++◌, ◌==◌,
  if◌then◌else◌,
}
use lite_mqtt.Codec.Packets.Acks.{serialize_pingreq}
use lite_mqtt.Connection.Asio.{AsioError}
use lite_mqtt.Connection.Writes.{
  Connection, WriteItem, Effect, calls, posts_call, posts_fail, starts_write, ErrorCode,
  after_write,
}
use lite_mqtt.Connection.Writes
use lite_mqtt.Client.Maps.{find, erase, update}
use lite_mqtt.Client.{
  Callback, WriteTag, connect_sent, reply_sent, pingreq_sent, qos0_sent, publish_sent, pubrel_sent,
  subscribe_sent, disconnect_sent, Output, calls_close, calls_subscribe, starts_read, transport,
  PendingPublish, PendingPubrec, PendingSubscribe, idle, waits_to_ping, waits_for_answer, Client,
  emit, call_publish, call_disconnected, async_write_packet,
}

-- The calls with which notify_closed_once() fails what is pending.
unfoldable pub fail_publishes : List (ℕ × PendingPublish) → List Output
fail_publishes [] = []
fail_publishes (kv ∷ m) =
    call_publish kv.1.callback false kv.1.topic kv.1.qos kv.0 ++ fail_publishes m

-- `cb(success, f.first, qos)` for each filter, with the level that `granted` makes of the filter's.
abbrev pub call_filters : Callback → Bool → (ℕ → ℕ) → List (List ℕ × ℕ) → List Output
call_filters none success granted fs = []
call_filters (some cb) success granted [] = []
call_filters (some cb) success granted (f ∷ fs) =
    calls_subscribe cb success f.0 (granted f.1) ∷ call_filters (some cb) success granted fs

unfoldable pub fail_subscribes : List (ℕ × PendingSubscribe) → List Output
fail_subscribes [] = []
fail_subscribes (kv ∷ m) =
    call_filters kv.1.callback false (λ _. 0) kv.1.filters ++ fail_subscribes m

unfoldable pub arm_publish_retry_timer : ℕ → Client → Client
arm_publish_retry_timer packet_id c = record c {
  pending_publishes =
      update packet_id (λ (e : PendingPublish). record e { timer_armed = true })
        c.pending_publishes;
}

unfoldable pub arm_pubrec_retry_timer : ℕ → Client → Client
arm_pubrec_retry_timer packet_id c = record c {
  pending_pubrecs =
      update packet_id (λ (e : PendingPubrec). record e { timer_armed = true }) c.pending_pubrecs;
}

unfoldable pub schedule_pingreq : Client → Client
schedule_pingreq c =
    if c.keep_alive_seconds == 0
    then c
    else record c { ping_timer = waits_to_ping c.keep_alive_seconds }

-- The completion handler of the write of SUBSCRIBE.
unfoldable pub subscribe_written : ErrorCode → ℕ → PendingSubscribe → Client → Client
subscribe_written none packet_id p c = emit (call_filters p.callback true (λ q. q) p.filters) c
subscribe_written (some ec) packet_id p c = record c {
  pending_subscribes = erase packet_id c.pending_subscribes;
  trace = c.trace ++ call_filters p.callback false (λ _. 0) p.filters;
}

-- `close_conn` is conn_->close().
module _ (close_conn : Client → Client) where
  unfoldable pub end_session : Client → Client
  end_session c =
      let failed = fail_publishes c.pending_publishes ++ fail_subscribes c.pending_subscribes in
      let c1 : Client = record c {
        closed = true;
        ping_timer = idle;
        connect_timer = false;
        pending_publishes = [];
        pending_pubrecs = [];
        pending_subscribes = [];
        trace = c.trace ++ failed;
      } in
      let c2 = close_conn c1 in if c2.on_close_cb then emit (calls_close ∷ []) c2 else c2

  unfoldable pub notify_closed_with : Client → Client
  unfolding end_session
  notify_closed_with c = if c.closed then c else end_session c

  unfoldable pub finish_publish_failure_with : ℕ → Client → Client
  unfolding notify_closed_with
  finish_publish_failure_with packet_id c =
      notify_closed_with (elim (find packet_id c.pending_publishes) [
        | none ↦ c
        | some e ↦ record c {
          pending_publishes = erase packet_id c.pending_publishes;
          trace = c.trace ++ call_publish e.callback false e.topic e.qos packet_id;
        }
      ])

  -- What the completion handler of a write does. Where two handlers are the same code, they share a
  -- clause: reply_sent stands for PUBACK, PUBREC and PUBCOMP.
  unfoldable pub written_with : WriteTag → ErrorCode → Client → Client
  unfolding notify_closed_with finish_publish_failure_with schedule_pingreq arm_publish_retry_timer
      arm_pubrec_retry_timer subscribe_written
  written_with connect_sent none c = emit (starts_read ∷ []) (schedule_pingreq c)
  written_with connect_sent (some ec) c = notify_closed_with c
  written_with reply_sent none c = c
  written_with reply_sent (some ec) c = notify_closed_with c
  written_with pingreq_sent none c = record c {
    ping_timer = waits_for_answer (c.keep_alive_seconds / 2);
  }
  written_with pingreq_sent (some ec) c = notify_closed_with c
  written_with (qos0_sent callback topic) none c = emit (call_publish callback true topic 0 0) c
  written_with (qos0_sent callback topic) (some ec) c =
      emit (call_publish callback false topic 0 0) c
  written_with (publish_sent packet_id) none c = arm_publish_retry_timer packet_id c
  written_with (publish_sent packet_id) (some ec) c = finish_publish_failure_with packet_id c
  written_with (pubrel_sent packet_id) none c = arm_pubrec_retry_timer packet_id c
  written_with (pubrel_sent packet_id) (some ec) c = record c {
    pending_pubrecs = erase packet_id c.pending_pubrecs;
  }
  written_with (subscribe_sent packet_id) ec c = elim (find packet_id c.pending_subscribes) [
    | none ↦ c
    | some p ↦ subscribe_written ec packet_id p c
  ]
  written_with (disconnect_sent on_closed) ec c = emit (call_disconnected on_closed) (close_conn c)

  unfoldable pub call_handler : WriteItem WriteTag → ErrorCode → Client → Client
  unfolding written_with
  call_handler item ec c = elim item.handler [ none ↦ c | some tag ↦ written_with tag ec c ]

  -- The effects of the connection, in order.
  unfoldable pub perform : List (Effect WriteTag) → Client → Client
  unfolding call_handler
  perform [] c = c
  perform (calls item ec ∷ es) c = perform es (call_handler item ec c)
  perform (posts_call item ec ∷ es) c = perform es (emit (transport (posts_call item ec) ∷ []) c)
  perform (posts_fail ec ∷ es) c = perform es (emit (transport (posts_fail ec) ∷ []) c)
  perform (starts_write bytes ∷ es) c = perform es (emit (transport (starts_write bytes) ∷ []) c)

-- conn_->close(): the handlers that it calls may close the connection again, which is closed then.
-- The number bounds how deep the calls nest.
unfoldable pub close_conn_at : ℕ → Client → Client
unfolding perform
close_conn_at zero c = c
close_conn_at (suc depth) c =
    let r = Writes.close c.conn in perform (close_conn_at depth) r.1 (record c { conn = r.0 })

unfoldable pub close_conn : Client → Client
unfolding close_conn_at
close_conn = close_conn_at 1

unfoldable pub notify_closed_once : Client → Client
unfolding notify_closed_with close_conn
notify_closed_once = notify_closed_with close_conn

unfoldable pub finish_publish_failure : ℕ → Client → Client
unfolding finish_publish_failure_with close_conn
finish_publish_failure = finish_publish_failure_with close_conn

-- close()
unfoldable pub close_client : Client → Client
unfolding close_conn
close_client = close_conn

-- A write completes: the handler of the item in flight runs, then the rest of the connection's.
unfoldable pub write_completes_with : ErrorCode → Option (WriteItem WriteTag) → Client → Client
unfolding call_handler perform close_conn
write_completes_with ec none c = c
write_completes_with ec (some item) c =
    let c1 : Client = record c { conn = record c.conn { in_flight = none; writing = false } } in
    let c2 = call_handler close_conn item ec c1 in
    let r = after_write ec c2.conn in perform close_conn r.1 (record c2 { conn = r.0 })

unfoldable pub write_completes : ErrorCode → Client → Client
unfolding write_completes_with
write_completes ec c = write_completes_with ec c.conn.in_flight c
