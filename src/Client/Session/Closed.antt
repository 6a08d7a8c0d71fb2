-- ===== src/Client/Session/Closed.antt =====
-- What is left of a session that notify_closed_once() ended.
use lite_mqtt.Prelude.{
  ℕ, ◌≡◌, refl, Bool, true, false, none, some, List, [], ◌∷◌, ◌++◌, arith, ◌∙◌, ap, subst,
  if◌then◌else◌, Option-cases, inl, inr, sym, ◌==◌,
}
use lite_mqtt.Connection.Writes.{
  WriteItem, Effect, ErrorCode, calls, posts_call, posts_fail, starts_write,
}
use lite_mqtt.Connection.Writes
use lite_mqtt.Client.Maps.{find, erase, update}
use lite_mqtt.Client.{
  WriteTag, connect_sent, reply_sent, pingreq_sent, qos0_sent, publish_sent, pubrel_sent,
  subscribe_sent, disconnect_sent, Client, emit, idle, waits_to_ping, Output, calls_close,
  PendingPublish, PendingPubrec,
}
use lite_mqtt.Client.Session.{
  fail_publishes, fail_subscribes, end_session, notify_closed_with, finish_publish_failure_with,
  written_with, call_handler, perform, close_conn_at, close_conn, notify_closed_once,
  schedule_pingreq, arm_publish_retry_timer, arm_pubrec_retry_timer,
}
use lite_mqtt.Client.Session.Depth.{close-closed}
use lite_mqtt.Client.Accounts.{account, waiting, answered}
use lite_mqtt.Client.Accounts.Closing.{account-notify_closed_once}

-- Nothing is pending and the connection is closed.
pub record IsOver (c : Client) : Type 0 where
  pub closed : c.closed ≡ true
  pub publishes : c.pending_publishes ≡ []
  pub pubrecs : c.pending_pubrecs ≡ []
  pub subscribes : c.pending_subscribes ≡ []
  pub conn_closed : c.conn.closed ≡ true

over :
    (c c' : Client)
    → IsOver c
    → c'.closed ≡ c.closed
    → c'.pending_publishes ≡ []
    → c'.pending_pubrecs ≡ []
    → c'.pending_subscribes ≡ c.pending_subscribes
    → c'.conn ≡ c.conn
    → IsOver c'
over c c' o closed publishes pubrecs subscribes conn = record {
  closed = closed ∙ o.closed;
  publishes = publishes;
  pubrecs = pubrecs;
  subscribes = subscribes ∙ o.subscribes;
  conn_closed = ap (λ (k : Writes.Connection WriteTag). k.closed) conn ∙ o.conn_closed;
}

if-IsOver : (b : Bool) (x y : Client) → IsOver x → IsOver y → IsOver (if b then x else y)
if-IsOver true x y hx hy = hx
if-IsOver false x y hx hy = hy

emit-IsOver : (os : List Output) (c : Client) → IsOver c → IsOver (emit os c)
emit-IsOver os c o = over c _ o refl o.publishes o.pubrecs refl refl

schedule_pingreq-IsOver : (c : Client) → IsOver c → IsOver (schedule_pingreq c)
unfolding schedule_pingreq
schedule_pingreq-IsOver c o =
    if-IsOver (c.keep_alive_seconds == 0) c
      (record c { ping_timer = waits_to_ping c.keep_alive_seconds }) o
      (over c _ o refl o.publishes o.pubrecs refl refl)

notify_over : (close : Client → Client) (c : Client) → IsOver c → notify_closed_with close c ≡ c
unfolding notify_closed_with
notify_over close c o = rw (o.closed) refl

module _ (close : Client → Client) (keeps : (c : Client) → IsOver c → IsOver (close c)) where
  fail_over :
      (packet_id : ℕ) (c : Client) → IsOver c → finish_publish_failure_with close packet_id c ≡ c
  unfolding finish_publish_failure_with find
  fail_over packet_id c o =
      let absent : find packet_id c.pending_publishes ≡ none = ap (find packet_id) o.publishes in
      rw (finish_publish_failure_with, absent) (notify_over close c o)

  abbrev armed_publish : PendingPublish → PendingPublish
  armed_publish e = record e { timer_armed = true }

  abbrev armed_pubrec : PendingPubrec → PendingPubrec
  armed_pubrec e = record e { timer_armed = true }

  written-IsOver :
      (tag : WriteTag) (ec : ErrorCode) (c : Client)
      → IsOver c
      → IsOver (written_with close tag ec c)
  unfolding written_with schedule_pingreq arm_publish_retry_timer arm_pubrec_retry_timer find update
      erase
  written-IsOver connect_sent none c o = emit-IsOver _ _ (schedule_pingreq-IsOver c o)
  written-IsOver connect_sent (some ec) c o = subst IsOver (sym (notify_over close c o)) o
  written-IsOver reply_sent none c o = o
  written-IsOver reply_sent (some ec) c o = subst IsOver (sym (notify_over close c o)) o
  written-IsOver pingreq_sent none c o = over c _ o refl o.publishes o.pubrecs refl refl
  written-IsOver pingreq_sent (some ec) c o = subst IsOver (sym (notify_over close c o)) o
  written-IsOver (qos0_sent cb topic) none c o = emit-IsOver _ c o
  written-IsOver (qos0_sent cb topic) (some ec) c o = emit-IsOver _ c o
  written-IsOver (publish_sent packet_id) none c o =
      over c _ o refl (ap (update packet_id armed_publish) o.publishes) o.pubrecs refl refl
  written-IsOver (publish_sent packet_id) (some ec) c o =
      subst IsOver (sym (fail_over packet_id c o)) o
  written-IsOver (pubrel_sent packet_id) none c o =
      over c _ o refl o.publishes (ap (update packet_id armed_pubrec) o.pubrecs) refl refl
  written-IsOver (pubrel_sent packet_id) (some ec) c o =
      over c _ o refl o.publishes (ap (erase packet_id) o.pubrecs) refl refl
  written-IsOver (subscribe_sent packet_id) ec c o =
      let absent : find packet_id c.pending_subscribes ≡ none = ap (find packet_id) o.subscribes in
      rw (written_with, absent) o
  written-IsOver (disconnect_sent cb) ec c o = emit-IsOver _ _ (keeps c o)

  call_handler-IsOver :
      (item : WriteItem WriteTag) (ec : ErrorCode) (c : Client)
      → IsOver c
      → IsOver (call_handler close item ec c)
  unfolding call_handler
  call_handler-IsOver item ec c o = elim (Option-cases item.handler) [
    | inl absent ↦ rw (call_handler, absent) o
    | inr (tag, found) ↦ rw (call_handler, found) (written-IsOver tag ec c o)
  ]

  perform-IsOver :
      (es : List (Effect WriteTag)) (c : Client) → IsOver c → IsOver (perform close es c)
  unfolding perform
  perform-IsOver [] c o = o
  perform-IsOver (calls item ec ∷ es) c o = perform-IsOver es _ (call_handler-IsOver item ec c o)
  perform-IsOver (posts_call item ec ∷ es) c o = perform-IsOver es _ (emit-IsOver _ c o)
  perform-IsOver (posts_fail ec ∷ es) c o = perform-IsOver es _ (emit-IsOver _ c o)
  perform-IsOver (starts_write bytes ∷ es) c o = perform-IsOver es _ (emit-IsOver _ c o)

end_session-IsOver : (c : Client) → IsOver (end_session close_conn c)
unfolding end_session close_conn close_conn_at
end_session-IsOver c =
    let c1 : Client = record c {
      closed = true;
      ping_timer = idle;
      connect_timer = false;
      pending_publishes = [];
      pending_pubrecs = [];
      pending_subscribes = [];
      trace =
          c.trace ++ (fail_publishes c.pending_publishes ++ fail_subscribes c.pending_subscribes);
    } in
    let r = Writes.close c.conn in
    let closed_over =
      perform-IsOver (close_conn_at 0) (λ c o. o) r.1 (record c1 { conn = r.0 })
        (record {
          closed = refl;
          publishes = refl;
          pubrecs = refl;
          subscribes = refl;
          conn_closed = close-closed c.conn;
        }) in
    if-IsOver _ _ _ (emit-IsOver (calls_close ∷ []) _ closed_over) closed_over

-- A session that is not closed yet is over when notify_closed_once() ends it: nothing is pending,
-- the connection is closed, every callback of a publish with QoS 1 or 2 that was owed has been
-- called, and a second notify_closed_once() does nothing.
pub notify_closed_once-IsOver :
    (counted : ℕ → Bool) (c : Client)
    → c.closed ≡ false
    → let c' = notify_closed_once c in
      IsOver c' × (answered counted c'.trace ≡ account counted c) × (notify_closed_once c' ≡ c')
unfolding notify_closed_once notify_closed_with account waiting
notify_closed_once-IsOver counted c live =
    let ended : notify_closed_once c ≡ end_session close_conn c =
      ap (λ b. if b then c else end_session close_conn c) live in
    let o : IsOver (notify_closed_once c) = subst IsOver (sym ended) (end_session-IsOver c) in
    let kept = account-notify_closed_once counted c in
    let none_owed : waiting counted (notify_closed_once c).pending_publishes ≡ 0 =
      ap (waiting counted) o.publishes in
    (o, omega (arith, kept, none_owed), notify_over close_conn _ o)
