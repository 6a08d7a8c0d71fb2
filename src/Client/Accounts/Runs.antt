-- ===== src/Client/Accounts/Runs.antt =====
-- The account of publish callbacks over runs of a session.
use lite_mqtt.Prelude.{
  ℕ, ◌+◌, ◌≡◌, refl, Bool, true, false, not, none, some, List, [], ◌∷◌, arith, ◌==◌, ltb, is_empty,
  ap, ◌∙◌,
}
use lite_mqtt.Codec.PacketType.{PacketType}
use lite_mqtt.Codec.Packets.Publish.{parse_publish}
use lite_mqtt.Connection.Writes.{ErrorCode, Connection, Effect, enqueue_write, fail_pending_writes}
use lite_mqtt.Client.{
  Callback, WriteTag, PingTimer, idle, waits_to_ping, waits_for_answer, Client, starts_read,
  starts_connect,
}
use lite_mqtt.Client.Session.{close_client, close_conn, perform}
use lite_mqtt.Client.Sending.{
  async_connect, socket_connected, resolve_fails, connect_completes, handle_connect_timeout,
  send_connect_packet, publish_qos0, async_publish_impl, new_entry, subscribe_with_id,
  async_subscribe_impl, async_disconnect, ping_timer_fires, is_connected,
}
use lite_mqtt.Client.Receiving.{
  handle_packet, dispatch, handle_connack, handle_publish, handle_suback, handle_puback,
  handle_pubrec, handle_pubrel, handle_pubcomp, receive_puback, receive_pubrel,
}
use lite_mqtt.Client.Events.{
  Happening, connect_starts, resolve_ends, connect_ends, write_ends, connect_times_out,
  ping_timer_expires, client_closes, packet_arrives, read_fails, publish_runs, subscribe_runs,
  disconnect_starts, publish_timer_expires, pubrec_timer_expires, enqueue_runs, posted_call_runs,
  posted_fail_runs, client_step, client_run,
}
use lite_mqtt.Client.Accounts.{weight, answered, account, answered-append, answered-call_filters}
use lite_mqtt.Client.Accounts.Closing.{
  account-quiet, account-conn, account-ping_timer, account-schedule_pingreq, account-close_conn,
  account-notify_closed_once, account-write_completes, account-perform, account-call_handler,
}
use lite_mqtt.Client.Accounts.Handlers.{
  account-post, account-if, account-call_connect, account-closed, account-subscribes,
  account-complete_publish, account-receive_pubrec, account-receive_pubcomp, account-publish_timer,
  account-pubrec_timer, account-receive_suback, account-receive_publish, account-return_code,
}
use lite_mqtt.Client.Accounts.Publishing.{
  Adds, Adds-if, account-acquire, account-refused, account-publish_with_id,
}

module _ (counted : ℕ → Bool) where
  -- What a happening adds to the account.
  unfoldable pub offers : Happening → ℕ
  unfolding weight
  offers (publish_runs topic payload qos cb) = weight counted cb qos
  offers _ = 0

  pub all_offers : List Happening → ℕ
  unfolding offers
  all_offers [] = 0
  all_offers (h ∷ hs) = offers h + all_offers hs

  account-publish_qos0 :
      (topic payload : List ℕ) (cb : Callback) (c : Client)
      → account counted (publish_qos0 topic payload cb c) ≡ account counted c
  unfolding publish_qos0
  account-publish_qos0 topic payload cb c = account-post counted _ _ c

  weight-qos0 : (cb : Callback) → weight counted cb 0 ≡ 0
  unfolding weight
  weight-qos0 none = refl
  weight-qos0 (some cb) = refl

  account-publish :
      (topic payload : List ℕ) (qos : ℕ) (cb : Callback) (c : Client)
      → Adds counted cb qos c (async_publish_impl topic payload qos cb c)
  unfolding async_publish_impl
  account-publish topic payload qos cb c =
      let refused = account-refused counted cb topic qos c in
      Adds-if counted (ltb 2 qos) _ _ cb qos c (λ _. refused)
        (λ _.
          Adds-if counted c.closed _ _ cb qos c (λ _. refused)
            (λ _.
              Adds-if counted (not (is_connected c.conn.state)) _ _ cb qos c (λ _. refused)
                (λ _.
                  Adds-if counted (qos == 0) _ _ cb qos c
                    (λ zero_asked.
                      let e : qos ≡ 0 = ground arith in
                      rw e (omega (arith, account-publish_qos0 topic payload cb c, weight-qos0 cb)))
                    (λ _.
                      account-publish_with_id counted (new_entry topic payload qos cb) _
                        (account-acquire counted c).1
                      ∙ ap (◌+◌ (weight counted cb qos)) (account-acquire counted c).0))))

  account-subscribe_with_id :
      (topic : List ℕ) (qos : ℕ) (cb : Callback) (r : Client × ℕ)
      → account counted (subscribe_with_id topic qos cb r) ≡ account counted r.0
  unfolding subscribe_with_id
  account-subscribe_with_id topic qos cb r =
      let filters : List (List ℕ × ℕ) = (topic, qos) ∷ [] in
      account-if counted (r.1 == 0) _ _ r.0
        (account-quiet counted _ r.0 (answered-call_filters counted cb false (λ _. 0) filters))
        (account-post counted _ _ _ ∙ account-subscribes counted _ r.0)

  account-subscribe :
      (topic : List ℕ) (qos : ℕ) (cb : Callback) (c : Client)
      → account counted (async_subscribe_impl topic qos cb c) ≡ account counted c
  unfolding async_subscribe_impl
  account-subscribe topic qos cb c =
      let filters : List (List ℕ × ℕ) = (topic, qos) ∷ [] in
      let refused =
        account-quiet counted _ c (answered-call_filters counted cb false (λ _. 0) filters) in
      account-if counted c.closed _ _ c refused (
        account-if counted (ltb 2 qos) _ _ c refused
          (account-subscribe_with_id topic qos cb _ ∙ (account-acquire counted c).0))

  account-socket :
      (ec : ErrorCode) (c : Client) → account counted (socket_connected ec c) ≡ account counted c
  unfolding socket_connected send_connect_packet
  account-socket none c = account-if counted c.closed _ _ c refl (account-post counted _ _ c)
  account-socket (some ec) c =
      account-if counted c.closed _ _ c refl (account-call_connect counted false 255 c)

  account-timeout : (c : Client) → account counted (handle_connect_timeout c) ≡ account counted c
  unfolding handle_connect_timeout
  account-timeout c = account-if counted c.closed _ _ c refl (
      account-call_connect counted false 255 _
      ∙ account-close_conn counted _
      ∙ account-closed counted true c)

  account-ping :
      (t : PingTimer) (c : Client) → account counted (ping_timer_fires t c) ≡ account counted c
  unfolding ping_timer_fires
  account-ping idle c = refl
  account-ping (waits_to_ping seconds) c =
      account-post counted _ _ _ ∙ account-ping_timer counted idle c
  account-ping (waits_for_answer seconds) c =
      account-notify_closed_once counted _ ∙ account-ping_timer counted idle c

  account-connect_timer :
      (c : Client) → account counted (record c { connect_timer = false }) ≡ account counted c
  unfolding account
  account-connect_timer c = refl

  account-dispatch :
      (t : PacketType) (bytes : List ℕ) (c : Client)
      → account counted (dispatch t bytes c) ≡ account counted c
  unfolding dispatch handle_connack handle_publish handle_suback handle_puback handle_pubrec
      handle_pubrel handle_pubcomp receive_puback receive_pubrel
  account-dispatch PacketType.connack bytes c =
      account-return_code counted _ _ ∙ account-connect_timer c
  account-dispatch PacketType.publish bytes c =
      account-receive_publish counted (parse_publish bytes) c
  account-dispatch PacketType.suback bytes c = account-receive_suback counted _ _ c
  account-dispatch PacketType.puback bytes c = account-complete_publish counted _ c
  account-dispatch PacketType.pubrec bytes c = account-receive_pubrec counted _ c
  account-dispatch PacketType.pubrel bytes c = account-post counted _ _ c
  account-dispatch PacketType.pubcomp bytes c = account-receive_pubcomp counted _ c
  account-dispatch PacketType.pingresp bytes c =
      account-schedule_pingreq counted _ ∙ account-ping_timer counted idle c
  account-dispatch _ bytes c = refl

  account-handle_packet :
      (bytes : List ℕ) (c : Client) → account counted (handle_packet bytes c) ≡ account counted c
  unfolding handle_packet
  account-handle_packet bytes c =
      account-if counted (is_empty bytes) _ _ c refl (account-dispatch _ bytes c)

  account-start :
      (has_callback : Bool) (c : Client)
      → account counted (async_connect has_callback c) ≡ account counted c
  unfolding async_connect account answered
  account-start has_callback c =
      omega (arith, answered-append counted c.trace (starts_connect ∷ []))

  same : {m n : ℕ} → m ≡ n → m ≡ 0 + n
  same h = omega arith

  -- What the connection did, and its effects.
  account-io :
      (r : Connection WriteTag × List (Effect WriteTag)) (c : Client)
      → account counted (perform close_conn r.1 (record c { conn = r.0 })) ≡ account counted c
  account-io r c =
      account-perform counted close_conn (account-close_conn counted) r.1 _
      ∙ account-conn counted r.0 c

  pub account-step :
      (h : Happening) (c : Client)
      → account counted (client_step h c) ≡ offers h + account counted c
  unfolding client_step offers close_client resolve_fails connect_completes async_disconnect
      answered
  account-step (connect_starts has_callback) c = same (account-start has_callback c)
  account-step (resolve_ends ec) c = same (account-socket ec c)
  account-step (connect_ends ec) c = same (account-socket ec _ ∙ account-conn counted _ c)
  account-step (write_ends ec) c = same (account-write_completes counted ec c)
  account-step connect_times_out c = same (account-timeout c)
  account-step ping_timer_expires c = same (account-ping c.ping_timer c)
  account-step client_closes c = same (account-close_conn counted c)
  account-step (packet_arrives bytes) c =
      same (account-quiet counted (starts_read ∷ []) _ refl ∙ account-handle_packet bytes c)
  account-step (read_fails ec) c = same (account-notify_closed_once counted c)
  account-step (publish_runs topic payload qos cb) c = account-publish topic payload qos cb c
  account-step (subscribe_runs topic qos cb) c = same (account-subscribe topic qos cb c)
  account-step (disconnect_starts cb) c =
      same (account-post counted _ _ _ ∙ account-ping_timer counted idle c)
  account-step (publish_timer_expires packet_id) c =
      same (account-publish_timer counted packet_id c)
  account-step (pubrec_timer_expires packet_id) c = same (account-pubrec_timer counted packet_id c)
  account-step (enqueue_runs item) c = same (account-io (enqueue_write item c.conn) c)
  account-step (posted_call_runs item ec) c =
      same (account-call_handler counted close_conn (account-close_conn counted) item ec c)
  account-step (posted_fail_runs ec) c = same (account-io (fail_pending_writes ec c.conn) c)

  -- Over any run of a session, whatever happens in whatever order, the callback of each publish with
  -- QoS 1 or 2 that was asked for is called exactly once or its publish is still pending: the calls
  -- made and the calls owed grow by the publishes that were asked for, and by nothing else.
  pub publishes_answered_once :
      (hs : List Happening) (c : Client)
      → account counted (client_run hs c) ≡ all_offers hs + account counted c
  unfolding client_run all_offers
  publishes_answered_once [] c = omega arith
  publishes_answered_once (h ∷ hs) c =
      omega (arith, publishes_answered_once hs (client_step h c), account-step h c)
