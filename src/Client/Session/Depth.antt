-- ===== src/Client/Session/Depth.antt =====
-- How deep the calls of close() nest.
use lite_mqtt.Prelude.{
  ℕ, zero, suc, ◌≡◌, refl, true, false, none, some, List, [], ◌∷◌, ◌++◌, arith, ◌∙◌, ap,
  Option-cases, Bool-cases, inl, inr, sym,
}
use lite_mqtt.Connection.Writes.{
  WriteItem, Effect, ErrorCode, calls, posts_call, posts_fail, starts_write,
}
use lite_mqtt.Connection.Writes
use lite_mqtt.Client.Maps.{find}
use lite_mqtt.Client.{
  WriteTag, idle, connect_sent, reply_sent, pingreq_sent, qos0_sent, publish_sent, pubrel_sent,
  subscribe_sent, disconnect_sent, PendingSubscribe, Client, emit, call_disconnected,
}
use lite_mqtt.Client.Session.{
  end_session, notify_closed_with, finish_publish_failure_with, written_with, call_handler, perform,
  close_conn_at, close_conn, subscribe_written, fail_publishes, fail_subscribes, schedule_pingreq,
  arm_publish_retry_timer, arm_pubrec_retry_timer,
}

closed_conn : (k : Writes.Connection WriteTag) → k.closed ≡ true → Writes.close k ≡ (k, [])
unfolding Writes.close
closed_conn k h = rw h refl

-- A connection that is closed is not closed again.
close_again : (depth : ℕ) (c : Client) → c.conn.closed ≡ true → close_conn_at depth c ≡ c
unfolding close_conn_at perform
close_again zero c h = refl
close_again (suc depth) c h = rw (close_conn_at, closed_conn c.conn h) refl

abbrev stay : Client → Client
stay c = c

subscribe_written-conn :
    (ec : ErrorCode) (packet_id : ℕ) (p : PendingSubscribe) (c : Client)
    → (subscribe_written ec packet_id p c).conn ≡ c.conn
unfolding subscribe_written
subscribe_written-conn none packet_id p c = refl
subscribe_written-conn (some ec) packet_id p c = refl

-- While the connection is closed, a handler neither opens it nor needs to close it.
module _ (close : Client → Client) (again : (c : Client) → c.conn.closed ≡ true → close c ≡ c) where
  end_session_stays :
      (c : Client)
      → c.conn.closed ≡ true
      → (end_session close c ≡ end_session stay c) × ((end_session stay c).conn ≡ c.conn)
  unfolding end_session
  end_session_stays c h = ground (
    arith,
    again (record c {
      closed = true;
      ping_timer = idle;
      connect_timer = false;
      pending_publishes = [];
      pending_pubrecs = [];
      pending_subscribes = [];
      trace =
          c.trace ++ (fail_publishes c.pending_publishes ++ fail_subscribes c.pending_subscribes);
    }),
  )

  notify_stays :
      (c : Client)
      → c.conn.closed ≡ true
      → (notify_closed_with close c ≡ notify_closed_with stay c)
        × ((notify_closed_with stay c).conn ≡ c.conn)
  unfolding notify_closed_with
  notify_stays c h = elim (Bool-cases c.closed) [
    | inl done ↦ rw (notify_closed_with, done) (refl, refl)
    | inr live ↦ rw (notify_closed_with, live) (end_session_stays c h)
  ]

  fail_stays :
      (packet_id : ℕ) (c : Client)
      → c.conn.closed ≡ true
      → (finish_publish_failure_with close packet_id c
          ≡ finish_publish_failure_with stay packet_id c)
        × ((finish_publish_failure_with stay packet_id c).conn ≡ c.conn)
  unfolding finish_publish_failure_with
  fail_stays packet_id c h = elim (Option-cases (find packet_id c.pending_publishes)) [
    | inl absent ↦ rw (finish_publish_failure_with, absent) (notify_stays c h)
    | inr (e, found) ↦ rw (finish_publish_failure_with, found) (notify_stays _ h)
  ]

  -- A run of a handler.
  abbrev Stays : WriteTag → ErrorCode → Client → Type 0
  Stays tag ec c =
      (written_with close tag ec c ≡ written_with stay tag ec c)
      × ((written_with stay tag ec c).conn ≡ c.conn)

  subscribe-Stays :
      (packet_id : ℕ) (ec : ErrorCode) (c : Client) → Stays (subscribe_sent packet_id) ec c
  unfolding written_with subscribe_written
  subscribe-Stays packet_id ec c = elim (Option-cases (find packet_id c.pending_subscribes)) [
    | inl absent ↦ rw (written_with, absent) (refl, refl)
    | inr (p, found) ↦ rw (written_with, found) (refl, subscribe_written-conn ec packet_id p c)
  ]

  written-Stays :
      (tag : WriteTag) (ec : ErrorCode) (c : Client) → c.conn.closed ≡ true → Stays tag ec c
  unfolding written_with schedule_pingreq arm_publish_retry_timer arm_pubrec_retry_timer
  written-Stays connect_sent none c h = (refl, ground arith)
  written-Stays connect_sent (some ec) c h = notify_stays c h
  written-Stays reply_sent none c h = (refl, refl)
  written-Stays reply_sent (some ec) c h = notify_stays c h
  written-Stays pingreq_sent none c h = (refl, refl)
  written-Stays pingreq_sent (some ec) c h = notify_stays c h
  written-Stays (qos0_sent cb topic) none c h = (refl, refl)
  written-Stays (qos0_sent cb topic) (some ec) c h = (refl, refl)
  written-Stays (publish_sent packet_id) none c h = (refl, refl)
  written-Stays (publish_sent packet_id) (some ec) c h = fail_stays packet_id c h
  written-Stays (pubrel_sent packet_id) none c h = (refl, refl)
  written-Stays (pubrel_sent packet_id) (some ec) c h = (refl, refl)
  written-Stays (subscribe_sent packet_id) ec c h = subscribe-Stays packet_id ec c
  written-Stays (disconnect_sent cb) ec c h = (ap (emit (call_disconnected cb)) (again c h), refl)

  call_handler_stays :
      (item : WriteItem WriteTag) (ec : ErrorCode) (c : Client)
      → c.conn.closed ≡ true
      → (call_handler close item ec c ≡ call_handler stay item ec c)
        × ((call_handler stay item ec c).conn ≡ c.conn)
  unfolding call_handler
  call_handler_stays item ec c h = elim (Option-cases item.handler) [
    | inl absent ↦ rw (call_handler, absent) (refl, refl)
    | inr (tag, found) ↦ rw (call_handler, found) (written-Stays tag ec c h)
  ]

  perform_stays :
      (es : List (Effect WriteTag)) (c : Client)
      → c.conn.closed ≡ true
      → perform close es c ≡ perform stay es c
  unfolding perform
  perform_stays [] c h = refl
  perform_stays (calls item ec ∷ es) c h =
      let (same, kept) = call_handler_stays item ec c h in
      ap (perform close es) same
      ∙ perform_stays es _ (ap (λ (k : Writes.Connection WriteTag). k.closed) kept ∙ h)
  perform_stays (posts_call item ec ∷ es) c h = perform_stays es _ h
  perform_stays (posts_fail ec ∷ es) c h = perform_stays es _ h
  perform_stays (starts_write bytes ∷ es) c h = perform_stays es _ h

-- After close() the connection is closed.
pub close-closed : (k : Writes.Connection WriteTag) → (Writes.close k).0.closed ≡ true
unfolding Writes.close Writes.fail_pending_writes
close-closed k = ground arith

-- The handlers that closing a connection calls may close it again, to any depth: this changes
-- nothing, so that one level of nesting is all there is.
pub close_conn-depth : (depth : ℕ) (c : Client) → close_conn_at (suc depth) c ≡ close_conn c
unfolding close_conn_at close_conn
close_conn-depth depth c =
    let r = Writes.close c.conn in
    let c' : Client = record c { conn = r.0 } in
    perform_stays (close_conn_at depth) (close_again depth) r.1 c' (close-closed c.conn)
    ∙ sym (perform_stays (close_conn_at 0) (close_again 0) r.1 c' (close-closed c.conn))
