-- ===== src/Client/Accounts.antt =====
-- How often the callbacks of publishes with an acknowledgement are called.
pub mod Closing
pub mod Handlers
pub mod Publishing
pub mod Runs
use lite_mqtt.Prelude.{
  ℕ, zero, suc, ◌+◌, ◌≡◌, refl, Bool, true, false, Option, none, some, List, [], ◌∷◌, ◌++◌, arith,
  ◌==◌, if◌then◌else◌,
}
use lite_mqtt.Connection.Writes.{
  WriteItem, Effect, ErrorCode, calls, posts_call, posts_fail, starts_write, after_write,
}
use lite_mqtt.Connection.Writes
use lite_mqtt.Client.Maps.{find, insert, erase, update}
use lite_mqtt.Client.{
  Callback, WriteTag, connect_sent, reply_sent, pingreq_sent, qos0_sent, publish_sent, pubrel_sent,
  subscribe_sent, disconnect_sent, Output, calls_connect, calls_message, calls_close, calls_publish,
  calls_subscribe, calls_disconnected, starts_connect, starts_read, posts_write, transport,
  PendingPublish, PendingSubscribe, Client, call_publish, call_disconnected,
}
use lite_mqtt.Client.Session.{
  fail_publishes, call_filters, fail_subscribes, end_session, notify_closed_with,
  finish_publish_failure_with, subscribe_written, written_with, call_handler, perform,
  close_conn_at, close_conn, write_completes, schedule_pingreq, arm_publish_retry_timer,
  arm_pubrec_retry_timer, notify_closed_once, finish_publish_failure, close_client,
}

-- The callbacks that are counted.
module _ (counted : ℕ → Bool) where
  -- 1 for a callback that is counted, of a publish with an acknowledgement.
  pub weight : Callback → ℕ → ℕ
  weight none qos = 0
  weight (some cb) qos = if qos == 0 then 0 else if counted cb then 1 else 0

  unfoldable pub answered : List Output → ℕ
  unfolding weight
  answered [] = 0
  answered (calls_publish cb success topic qos packet_id ∷ os) = weight (some cb) qos + answered os
  answered (calls_connect success code ∷ os) = answered os
  answered (calls_message topic payload qos packet_id ∷ os) = answered os
  answered (calls_close ∷ os) = answered os
  answered (calls_subscribe cb success topic qos ∷ os) = answered os
  answered (calls_disconnected cb ∷ os) = answered os
  answered (starts_connect ∷ os) = answered os
  answered (starts_read ∷ os) = answered os
  answered (posts_write item ∷ os) = answered os
  answered (transport e ∷ os) = answered os

  unfoldable pub waiting : List (ℕ × PendingPublish) → ℕ
  unfolding weight
  waiting [] = 0
  waiting (e ∷ m) = weight e.1.callback e.1.qos + waiting m

  -- The calls made and the calls owed.
  unfoldable pub account : Client → ℕ
  unfolding answered waiting
  account c = answered c.trace + waiting c.pending_publishes

  pub answered-append : (xs ys : List Output) → answered (xs ++ ys) ≡ answered xs + answered ys
  unfolding answered
  answered-append [] ys = omega arith
  answered-append (calls_publish cb success topic qos packet_id ∷ os) ys =
      omega (arith, answered-append os ys)
  answered-append (calls_connect success code ∷ os) ys = answered-append os ys
  answered-append (calls_message topic payload qos packet_id ∷ os) ys = answered-append os ys
  answered-append (calls_close ∷ os) ys = answered-append os ys
  answered-append (calls_subscribe cb success topic qos ∷ os) ys = answered-append os ys
  answered-append (calls_disconnected cb ∷ os) ys = answered-append os ys
  answered-append (starts_connect ∷ os) ys = answered-append os ys
  answered-append (starts_read ∷ os) ys = answered-append os ys
  answered-append (posts_write item ∷ os) ys = answered-append os ys
  answered-append (transport e ∷ os) ys = answered-append os ys

  pub answered-call_publish :
      (cb : Callback) (success : Bool) (topic : List ℕ) (qos packet_id : ℕ)
      → answered (call_publish cb success topic qos packet_id) ≡ weight cb qos
  unfolding answered weight
  answered-call_publish none success topic qos packet_id = refl
  answered-call_publish (some cb) success topic qos packet_id = omega arith

  pub answered-fail_publishes :
      (m : List (ℕ × PendingPublish)) → answered (fail_publishes m) ≡ waiting m
  unfolding fail_publishes waiting answered
  answered-fail_publishes [] = refl
  answered-fail_publishes (e ∷ m) = omega (
    arith,
    answered-append (call_publish e.1.callback false e.1.topic e.1.qos e.0) (fail_publishes m),
    answered-call_publish e.1.callback false e.1.topic e.1.qos e.0,
    answered-fail_publishes m,
  )

  pub answered-call_filters :
      (cb : Callback) (success : Bool) (granted : ℕ → ℕ) (fs : List (List ℕ × ℕ))
      → answered (call_filters cb success granted fs) ≡ 0
  unfolding answered
  answered-call_filters none success granted fs = refl
  answered-call_filters (some cb) success granted [] = refl
  answered-call_filters (some cb) success granted (f ∷ fs) =
      answered-call_filters (some cb) success granted fs

  pub answered-fail_subscribes :
      (m : List (ℕ × PendingSubscribe)) → answered (fail_subscribes m) ≡ 0
  unfolding fail_subscribes answered
  answered-fail_subscribes [] = refl
  answered-fail_subscribes (e ∷ m) = omega (
    arith,
    answered-append (call_filters e.1.callback false (λ _. 0) e.1.filters) (fail_subscribes m),
    answered-call_filters e.1.callback false (λ _. 0) e.1.filters,
    answered-fail_subscribes m,
  )

  pub waiting-update :
      (k : ℕ) (f : PendingPublish → PendingPublish) (m : List (ℕ × PendingPublish))
      → ((e : PendingPublish) → weight (f e).callback (f e).qos ≡ weight e.callback e.qos)
      → waiting (update k f m) ≡ waiting m
  unfolding update waiting
  waiting-update k f [] h = refl
  waiting-update k f (e ∷ m) h = ground (arith, waiting-update k f m h, h e.1)

  pub waiting-erase :
      (k : ℕ) (e : PendingPublish) (m : List (ℕ × PendingPublish))
      → find k m ≡ some e
      → waiting m ≡ weight e.callback e.qos + waiting (erase k m)
  unfolding find erase waiting
  waiting-erase k e [] h = ground arith
  waiting-erase k e (x ∷ m) h = ground (arith, waiting-erase k e m)

  pub waiting-insert :
      (k : ℕ) (e : PendingPublish) (m : List (ℕ × PendingPublish))
      → find k m ≡ none
      → waiting (insert k e m) ≡ weight e.callback e.qos + waiting m
  unfolding find insert waiting
  waiting-insert k e [] h = omega arith
  waiting-insert k e (x ∷ m) h = ground (arith, waiting-insert k e m)
