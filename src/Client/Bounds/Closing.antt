-- ===== src/Client/Bounds/Closing.antt =====
-- The bounds of a session under its end and under completed writes.
use lite_mqtt.Prelude.{
  ℕ, zero, suc, true, false, Option, none, some, List, [], ◌∷◌, ◌==◌, if_elim, Option-cases, inl,
  inr,
}
use lite_mqtt.Connection.Writes.{
  WriteItem, Effect, ErrorCode, calls, posts_call, posts_fail, starts_write, after_write,
}
use lite_mqtt.Connection.Writes
use lite_mqtt.Client.Maps.{find}
use lite_mqtt.Client.{
  WriteTag, connect_sent, reply_sent, pingreq_sent, qos0_sent, publish_sent, pubrel_sent,
  subscribe_sent, disconnect_sent, Client, PendingPublish, PendingPubrec, PendingSubscribe,
}
use lite_mqtt.Client.Session.{
  end_session, notify_closed_with, finish_publish_failure_with, written_with, call_handler, perform,
  close_conn_at, close_conn, notify_closed_once, schedule_pingreq, arm_publish_retry_timer,
  arm_pubrec_retry_timer, subscribe_written, write_completes, write_completes_with,
  finish_publish_failure,
}
use lite_mqtt.Client.Bounds.{IsSound}
use lite_mqtt.Client.Bounds.Entries.{
  erase_publish-Sound, erase_pubrec-Sound, erase_subscribe-Sound, update_publish-Sound,
  update_pubrec-Sound, cleared-Sound,
}

pub arm_publish-IsSound : (id : ℕ) (c : Client) → IsSound c → IsSound (arm_publish_retry_timer id c)
unfolding arm_publish_retry_timer
arm_publish-IsSound id c o =
    update_publish-Sound id (λ (e : PendingPublish). record e { timer_armed = true }) (λ e f h. h) o

pub arm_pubrec-IsSound : (id : ℕ) (c : Client) → IsSound c → IsSound (arm_pubrec_retry_timer id c)
unfolding arm_pubrec_retry_timer
arm_pubrec-IsSound id c o =
    update_pubrec-Sound id (λ (e : PendingPubrec). record e { timer_armed = true }) (λ e f h. h) o

pub schedule_pingreq-IsSound : (c : Client) → IsSound c → IsSound (schedule_pingreq c)
unfolding schedule_pingreq
schedule_pingreq-IsSound c o = if_elim IsSound (c.keep_alive_seconds == 0) _ _ (λ _. o) (λ _. o)

module _ (close : Client → Client) (kept : (c : Client) → IsSound c → IsSound (close c)) where
  pub notify-IsSound : (c : Client) → IsSound c → IsSound (notify_closed_with close c)
  unfolding notify_closed_with end_session
  notify-IsSound c o =
      if_elim IsSound c.closed _ _ (λ _. o)
        (λ _.
          let closed = kept _ (cleared-Sound o) in
          if_elim IsSound _ _ _ (λ _. closed) (λ _. closed))

  pub fail-IsSound :
      (id : ℕ) (c : Client) → IsSound c → IsSound (finish_publish_failure_with close id c)
  unfolding finish_publish_failure_with
  fail-IsSound id c o = elim (Option-cases (find id c.pending_publishes)) [
    | inl absent ↦ rw (finish_publish_failure_with, absent) (notify-IsSound c o)
    | inr (e, found) ↦
        rw (finish_publish_failure_with, found) (notify-IsSound _ (erase_publish-Sound id o))
  ]

  subscribe_written-IsSound :
      (ec : ErrorCode) (id : ℕ) (p : PendingSubscribe) (c : Client)
      → IsSound c
      → IsSound (subscribe_written ec id p c)
  unfolding subscribe_written
  subscribe_written-IsSound none id p c o = o
  subscribe_written-IsSound (some ec) id p c o = erase_subscribe-Sound id o

  written-IsSound :
      (tag : WriteTag) (ec : ErrorCode) (c : Client)
      → IsSound c
      → IsSound (written_with close tag ec c)
  unfolding written_with
  written-IsSound connect_sent none c o = schedule_pingreq-IsSound c o
  written-IsSound connect_sent (some ec) c o = notify-IsSound c o
  written-IsSound reply_sent none c o = o
  written-IsSound reply_sent (some ec) c o = notify-IsSound c o
  written-IsSound pingreq_sent none c o = o
  written-IsSound pingreq_sent (some ec) c o = notify-IsSound c o
  written-IsSound (qos0_sent cb topic) none c o = o
  written-IsSound (qos0_sent cb topic) (some ec) c o = o
  written-IsSound (publish_sent id) none c o = arm_publish-IsSound id c o
  written-IsSound (publish_sent id) (some ec) c o = fail-IsSound id c o
  written-IsSound (pubrel_sent id) none c o = arm_pubrec-IsSound id c o
  written-IsSound (pubrel_sent id) (some ec) c o = erase_pubrec-Sound id o
  written-IsSound (subscribe_sent id) ec c o = elim (Option-cases (find id c.pending_subscribes)) [
    | inl absent ↦ rw (written_with, absent) o
    | inr (p, found) ↦ rw (written_with, found) (subscribe_written-IsSound ec id p c o)
  ]
  written-IsSound (disconnect_sent cb) ec c o = kept c o

  pub call_handler-IsSound :
      (item : WriteItem WriteTag) (ec : ErrorCode) (c : Client)
      → IsSound c
      → IsSound (call_handler close item ec c)
  unfolding call_handler
  call_handler-IsSound item ec c o = elim (Option-cases item.handler) [
    | inl absent ↦ rw (call_handler, absent) o
    | inr (tag, found) ↦ rw (call_handler, found) (written-IsSound tag ec c o)
  ]

  pub perform-IsSound :
      (es : List (Effect WriteTag)) (c : Client) → IsSound c → IsSound (perform close es c)
  unfolding perform
  perform-IsSound [] c o = o
  perform-IsSound (calls item ec ∷ es) c o = perform-IsSound es _ (call_handler-IsSound item ec c o)
  perform-IsSound (posts_call item ec ∷ es) c o = perform-IsSound es _ o
  perform-IsSound (posts_fail ec ∷ es) c o = perform-IsSound es _ o
  perform-IsSound (starts_write bytes ∷ es) c o = perform-IsSound es _ o

close_at-IsSound : (depth : ℕ) (c : Client) → IsSound c → IsSound (close_conn_at depth c)
unfolding close_conn_at
close_at-IsSound zero c o = o
close_at-IsSound (suc depth) c o =
    perform-IsSound (close_conn_at depth) (close_at-IsSound depth) (Writes.close c.conn).1 _ o

pub close_conn-IsSound : (c : Client) → IsSound c → IsSound (close_conn c)
unfolding close_conn
close_conn-IsSound c o = close_at-IsSound 1 c o

pub notify_closed_once-IsSound : (c : Client) → IsSound c → IsSound (notify_closed_once c)
unfolding notify_closed_once
notify_closed_once-IsSound c o = notify-IsSound close_conn close_conn-IsSound c o

pub finish_publish_failure-IsSound :
    (id : ℕ) (c : Client) → IsSound c → IsSound (finish_publish_failure id c)
unfolding finish_publish_failure
finish_publish_failure-IsSound id c o = fail-IsSound close_conn close_conn-IsSound id c o

write-IsSound :
    (ec : ErrorCode) (item : Option (WriteItem WriteTag)) (c : Client)
    → IsSound c
    → IsSound (write_completes_with ec item c)
unfolding write_completes_with
write-IsSound ec none c o = o
write-IsSound ec (some item) c o =
    let c1 : Client = record c { conn = record c.conn { in_flight = none; writing = false } } in
    let c2 = call_handler close_conn item ec c1 in
    let r = after_write ec c2.conn in
    perform-IsSound close_conn close_conn-IsSound r.1 (record c2 { conn = r.0 })
      (call_handler-IsSound close_conn close_conn-IsSound item ec c1 o)

pub write_completes-IsSound :
    (ec : ErrorCode) (c : Client) → IsSound c → IsSound (write_completes ec c)
unfolding write_completes
write_completes-IsSound ec c o = write-IsSound ec c.conn.in_flight c o
