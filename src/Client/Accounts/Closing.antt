-- ===== src/Client/Accounts/Closing.antt =====
-- The account of publish callbacks under the end of a session and under completed writes.
use lite_mqtt.Prelude.{
  ℕ, zero, suc, ◌+◌, ◌≡◌, refl, Bool, true, false, Option, none, some, List, [], ◌∷◌, ◌++◌, arith,
  Option-cases, inl, inr, ◌∙◌,
}
use lite_mqtt.Connection.Writes.{
  WriteItem, Effect, ErrorCode, calls, posts_call, posts_fail, starts_write, after_write,
}
use lite_mqtt.Connection.Writes
use lite_mqtt.Client.Maps.{find, erase}
use lite_mqtt.Client.{
  Callback, WriteTag, connect_sent, reply_sent, pingreq_sent, qos0_sent, publish_sent, pubrel_sent,
  subscribe_sent, disconnect_sent, calls_close, PendingPublish, PendingSubscribe, Output, Client,
  emit, call_publish, call_disconnected, idle, PingTimer, PendingPubrec, starts_read, transport,
}
use lite_mqtt.Client.Session.{
  call_filters, end_session, notify_closed_with, finish_publish_failure_with, subscribe_written,
  written_with, call_handler, perform, close_conn_at, close_conn, write_completes,
  write_completes_with, schedule_pingreq, arm_publish_retry_timer, notify_closed_once,
  fail_publishes, fail_subscribes,
}
use lite_mqtt.Client.Accounts.{
  weight, answered, waiting, account, answered-append, answered-call_publish,
  answered-fail_publishes, answered-call_filters, answered-fail_subscribes, waiting-update,
  waiting-erase,
}

module _ (counted : ℕ → Bool) where
  pub account-emit :
      (os : List Output) (c : Client)
      → account counted (emit os c) ≡ answered counted os + account counted c
  unfolding account
  account-emit os c = omega (arith, answered-append counted c.trace os)

  pub account-quiet :
      (os : List Output) (c : Client)
      → answered counted os ≡ 0
      → account counted (emit os c) ≡ account counted c
  account-quiet os c h = omega (arith, account-emit os c)

  -- Changes of what is not counted.
  pub account-conn :
      (conn : Writes.Connection WriteTag) (c : Client)
      → account counted (record c { conn = conn }) ≡ account counted c
  unfolding account
  account-conn conn c = refl

  pub account-ping_timer :
      (t : PingTimer) (c : Client)
      → account counted (record c { ping_timer = t }) ≡ account counted c
  unfolding account
  account-ping_timer t c = refl

  pub account-pubrecs :
      (m : List (ℕ × PendingPubrec)) (c : Client)
      → account counted (record c { pending_pubrecs = m }) ≡ account counted c
  unfolding account
  account-pubrecs m c = refl

  pub account-schedule_pingreq :
      (c : Client) → account counted (schedule_pingreq c) ≡ account counted c
  unfolding account schedule_pingreq
  account-schedule_pingreq c = ground arith

  pub account-arm :
      (packet_id : ℕ) (c : Client)
      → account counted (arm_publish_retry_timer packet_id c) ≡ account counted c
  unfolding account arm_publish_retry_timer
  account-arm packet_id c = omega (
    arith,
    waiting-update counted packet_id (λ (e : PendingPublish). record e { timer_armed = true })
        c.pending_publishes (λ e. refl),
  )

  -- An entry goes and its callback is called.
  pub account-finish :
      (packet_id : ℕ) (success : Bool) (e : PendingPublish) (c : Client)
      → find packet_id c.pending_publishes ≡ some e
      → account counted (record c {
        pending_publishes = erase packet_id c.pending_publishes;
        trace = c.trace ++ call_publish e.callback success e.topic e.qos packet_id;
      })
        ≡ account counted c
  unfolding account
  account-finish packet_id success e c found =
      let call = call_publish e.callback success e.topic e.qos packet_id in
      omega (
        arith,
        answered-append counted c.trace call,
        answered-call_publish counted e.callback success e.topic e.qos packet_id,
        waiting-erase counted packet_id e c.pending_publishes found,
      )

  account-subscribe_written :
      (ec : ErrorCode) (packet_id : ℕ) (p : PendingSubscribe) (c : Client)
      → account counted (subscribe_written ec packet_id p c) ≡ account counted c
  unfolding subscribe_written account
  account-subscribe_written none packet_id p c = omega (
    arith,
    answered-append counted c.trace (call_filters p.callback true (λ q. q) p.filters),
    answered-call_filters counted p.callback true (λ q. q) p.filters,
  )
  account-subscribe_written (some ec) packet_id p c = omega (
    arith,
    answered-append counted c.trace (call_filters p.callback false (λ _. 0) p.filters),
    answered-call_filters counted p.callback false (λ _. 0) p.filters,
  )

  account-disconnected :
      (cb : Callback) (c : Client)
      → account counted (emit (call_disconnected cb) c) ≡ account counted c
  unfolding answered
  account-disconnected none c = account-quiet [] c refl
  account-disconnected (some cb) c = account-quiet (call_disconnected (some cb)) c refl

  account-qos0 :
      (cb : Callback) (success : Bool) (topic : List ℕ) (c : Client)
      → account counted (emit (call_publish cb success topic 0 0) c) ≡ account counted c
  unfolding answered weight
  account-qos0 none success topic c = account-quiet [] c refl
  account-qos0 (some cb) success topic c =
      account-quiet (call_publish (some cb) success topic 0 0) c refl

  module _ (close : Client → Client)
      (kept : (c : Client) → account counted (close c) ≡ account counted c) where
    end_account : (c : Client) → account counted (end_session close c) ≡ account counted c
    unfolding end_session account answered waiting
    end_account c =
        let ps = fail_publishes c.pending_publishes in
        let ss = fail_subscribes c.pending_subscribes in
        let c1 : Client = record c {
          closed = true;
          ping_timer = idle;
          connect_timer = false;
          pending_publishes = [];
          pending_pubrecs = [];
          pending_subscribes = [];
          trace = c.trace ++ (ps ++ ss);
        } in
        ground (
          arith,
          kept c1,
          answered-append counted c.trace (ps ++ ss),
          answered-append counted ps ss,
          answered-fail_publishes counted c.pending_publishes,
          answered-fail_subscribes counted c.pending_subscribes,
          account-emit (calls_close ∷ []) (close c1),
        )

    pub account-notify :
        (c : Client) → account counted (notify_closed_with close c) ≡ account counted c
    unfolding notify_closed_with
    account-notify c = ground (arith, end_account c)

    pub account-fail :
        (packet_id : ℕ) (c : Client)
        → account counted (finish_publish_failure_with close packet_id c) ≡ account counted c
    unfolding finish_publish_failure_with
    account-fail packet_id c = elim (Option-cases (find packet_id c.pending_publishes)) [
      | inl absent ↦ rw absent (account-notify c)
      | inr (e, found) ↦ rw found (account-notify _ ∙ account-finish packet_id false e c found)
    ]

    pub account-written :
        (tag : WriteTag) (ec : ErrorCode) (c : Client)
        → account counted (written_with close tag ec c) ≡ account counted c
    unfolding written_with answered
    account-written connect_sent none c =
        account-quiet (starts_read ∷ []) (schedule_pingreq c) refl ∙ account-schedule_pingreq c
    account-written connect_sent (some ec) c = account-notify c
    account-written reply_sent none c = refl
    account-written reply_sent (some ec) c = account-notify c
    account-written pingreq_sent none c = account-ping_timer _ c
    account-written pingreq_sent (some ec) c = account-notify c
    account-written (qos0_sent cb topic) none c = account-qos0 cb true topic c
    account-written (qos0_sent cb topic) (some ec) c = account-qos0 cb false topic c
    account-written (publish_sent packet_id) none c = account-arm packet_id c
    account-written (publish_sent packet_id) (some ec) c = account-fail packet_id c
    account-written (pubrel_sent packet_id) none c = account-pubrecs _ c
    account-written (pubrel_sent packet_id) (some ec) c = account-pubrecs _ c
    account-written (subscribe_sent packet_id) ec c =
        elim (Option-cases (find packet_id c.pending_subscribes)) [
          | inl absent ↦ rw (written_with, absent) refl
          | inr (p, found) ↦ rw (written_with, found) (account-subscribe_written ec packet_id p c)
        ]
    account-written (disconnect_sent cb) ec c = account-disconnected cb (close c) ∙ kept c

    pub account-call_handler :
        (item : WriteItem WriteTag) (ec : ErrorCode) (c : Client)
        → account counted (call_handler close item ec c) ≡ account counted c
    unfolding call_handler
    account-call_handler item ec c = elim (Option-cases item.handler) [
      | inl absent ↦ rw absent refl
      | inr (tag, found) ↦ rw found (account-written tag ec c)
    ]

    pub account-perform :
        (es : List (Effect WriteTag)) (c : Client)
        → account counted (perform close es c) ≡ account counted c
    unfolding perform answered
    account-perform [] c = refl
    account-perform (calls item ec ∷ es) c =
        account-perform es (call_handler close item ec c) ∙ account-call_handler item ec c
    account-perform (posts_call item ec ∷ es) c =
        account-perform es (emit (transport (posts_call item ec) ∷ []) c)
        ∙ account-quiet (transport (posts_call item ec) ∷ []) c refl
    account-perform (posts_fail ec ∷ es) c =
        account-perform es (emit (transport (posts_fail ec) ∷ []) c)
        ∙ account-quiet (transport (posts_fail ec) ∷ []) c refl
    account-perform (starts_write bytes ∷ es) c =
        account-perform es (emit (transport (starts_write bytes) ∷ []) c)
        ∙ account-quiet (transport (starts_write bytes) ∷ []) c refl

  close_at : (depth : ℕ) (c : Client) → account counted (close_conn_at depth c) ≡ account counted c
  unfolding close_conn_at
  close_at zero c = refl
  close_at (suc depth) c =
      account-perform (close_conn_at depth) (close_at depth) (Writes.close c.conn).1 _
      ∙ account-conn (Writes.close c.conn).0 c

  pub account-close_conn : (c : Client) → account counted (close_conn c) ≡ account counted c
  unfolding close_conn
  account-close_conn c = close_at 1 c

  pub account-notify_closed_once :
      (c : Client) → account counted (notify_closed_once c) ≡ account counted c
  unfolding notify_closed_once
  account-notify_closed_once c = account-notify close_conn account-close_conn c

  write_account :
      (ec : ErrorCode) (o : Option (WriteItem WriteTag)) (c : Client)
      → account counted (write_completes_with ec o c) ≡ account counted c
  unfolding write_completes_with
  write_account ec none c = refl
  write_account ec (some item) c =
      let c1 : Client = record c { conn = record c.conn { in_flight = none; writing = false } } in
      let c2 = call_handler close_conn item ec c1 in
      let r = after_write ec c2.conn in
      account-perform close_conn account-close_conn r.1 (record c2 { conn = r.0 })
      ∙ account-conn r.0 c2
      ∙ account-call_handler close_conn account-close_conn item ec c1
      ∙ account-conn c1.conn c

  pub account-write_completes :
      (ec : ErrorCode) (c : Client) → account counted (write_completes ec c) ≡ account counted c
  unfolding write_completes
  account-write_completes ec c = write_account ec c.conn.in_flight c
