-- ===== src/Helper/Accounts/Runs.antt =====
-- The account of publish callbacks over the runs of a helper, and what stop() does to it.
use lite_mqtt.Prelude.{
  ℕ, zero, suc, length, ◌==◌, ◌+◌, ◌≡◌, refl, ap, ◌∙◌, Bool, true, false, not, Option, none, some,
  List, [], ◌∷◌, ◌++◌, arith, subst, sym, if_elim, ◌&&◌, ◌||◌, if◌then◌else◌,
}
use lite_mqtt.Client.{Callback, Client, Output, call_publish}
use lite_mqtt.Client.Sending.{async_connect, async_disconnect}
use lite_mqtt.Client.Events.{
  Happening, connect_starts, resolve_ends, connect_ends, write_ends, connect_times_out,
  ping_timer_expires, client_closes, packet_arrives, read_fails, publish_timer_expires,
  pubrec_timer_expires, enqueue_runs, posted_call_runs, posted_fail_runs, client_step,
  disconnect_starts, subscribe_runs, publish_runs,
}
use lite_mqtt.Client.Accounts.{account, answered, weight, answered-append, answered-call_publish}
use lite_mqtt.Client.Accounts.Runs.{offers, account-step}
use lite_mqtt.Helper.{Task, client_task, rearms, Helper, post_task, see}
use lite_mqtt.Helper.Policy.{
  connect_client, do_connect, cancel_wait, timer_fires, rearm_reconnect, rearm_task,
}
use lite_mqtt.Helper.Callbacks.{
  with_client, with_released, react_all, on_message, subscribe, publish, publish_on, has_connection,
}
use lite_mqtt.Helper.Lifecycle.{stop_begins, has_client}
use lite_mqtt.Helper.Events.{
  Event, starts, stop_waits_over, backoff_ends, rearm_called, task_runs, stop_called,
  message_callback_set, subscribe_called, publish_called, io_runs, late_wait_ends, released_runs,
  run_task, backoff_expires, late_wait_completes, helper_step, helper_run,
}
use lite_mqtt.Helper.Accounts.Keeps.{AsksNothing, KeepsClient, helper_step-has_client}
use lite_mqtt.Helper.Accounts.{
  seen_answers, owed_by, queued, helper_account, queued-append, same_account, account-with_client,
  owed_by_all, owed_by_all-append, account-react_all, account-see,
}

module _ (counted : ℕ → Bool) where
  -- What an event adds to the account: io_runs is for what is not posted through the helper, too.
  pub asks : Event → ℕ
  asks (publish_called topic payload qos cb) = weight counted cb qos
  asks (io_runs t) = offers counted t
  asks _ = 0

  pub all_asks : List Event → ℕ
  unfolding asks
  all_asks [] = 0
  all_asks (e ∷ es) = asks e + all_asks es

  account-connect_client :
      (c : Option Client) → owed_by counted (connect_client c) ≡ owed_by counted c
  unfolding connect_client owed_by account async_connect
  account-connect_client none = refl
  account-connect_client (some c) = refl

  account-do_connect :
      (h : Helper) → helper_account counted (do_connect h) ≡ helper_account counted h
  unfolding do_connect helper_account
  account-do_connect h = omega (arith, account-connect_client h.client)

  -- An operation on whatever client there is.
  account-on_client :
      (f : Client → Client) (n : ℕ) (client : Option Client) (h : Helper)
      → ((c : Client) → account counted (f c) ≡ n + account counted c)
      → h.client ≡ client
      → (client ≡ none → n ≡ 0)
      → helper_account counted (with_client f client h) ≡ n + helper_account counted h
  unfolding with_client
  account-on_client f n none h adds e nothing = omega (arith, nothing refl)
  account-on_client f n (some c) h adds e nothing = account-with_client counted f n c h (adds c) e

  no_client : {client : Option Client} → client ≡ none → has_client client ≡ true → ⊥
  unfolding has_client
  no_client gone owned = subst (λ b. if b then Unit {0} else ⊥) (sym owned ∙ ap has_client gone) tt

  released_account :
      (f : Client → Client) (n : ℕ) (before : List Client) (c : Client) (cs : List Client)
      (h : Helper)
      → account counted (f c) ≡ n + account counted c
      → h.released ≡ before ++ c ∷ cs
      → helper_account counted (
          react_all
            (f c).trace
            (record h { released = before ++ record (f c) { trace = [] } ∷ cs }))
        ≡ n + helper_account counted h
  unfolding helper_account owed_by_all account
  released_account f n before c cs h adds e = omega (
    arith,
    adds,
    account-react_all counted (f c).trace
        (record h { released = before ++ record (f c) { trace = [] } ∷ cs }),
    owed_by_all-append counted before (c ∷ cs),
    owed_by_all-append counted before (record (f c) { trace = [] } ∷ cs),
    ap (owed_by_all counted) e,
  )

  -- An operation on a client that was let go, or on the one that the helper owns.
  account-with_released :
      (f : Client → Client) (n k : ℕ) (before cs : List Client) (h : Helper)
      → ((c : Client) → account counted (f c) ≡ n + account counted c)
      → h.released ≡ before ++ cs
      → (h.client ≡ none → n ≡ 0)
      → helper_account counted (with_released f k before cs h) ≡ n + helper_account counted h
  unfolding with_released
  account-with_released f n k before [] h adds e nothing =
      account-on_client f n h.client h adds refl nothing
  account-with_released f n k before (c ∷ cs) h adds e nothing =
      let run : Helper = record h { released = before ++ record (f c) { trace = [] } ∷ cs } in
      let later =
        account-with_released f n k (before ++ c ∷ []) cs h adds (e ∙ split before) nothing in
      if_elim (λ r. helper_account counted r ≡ n + helper_account counted h) (length cs == k)
        (react_all (f c).trace run) (with_released f k (before ++ c ∷ []) cs h)
        (λ _. released_account f n before c cs h (adds c) e) (λ _. later)
    where
      split : (bs : List Client) → bs ++ c ∷ cs ≡ (bs ++ c ∷ []) ++ cs
      split [] = refl
      split (b ∷ bs) = ap (λ xs. b ∷ xs) (split bs)

  taken_task :
      (h : Helper) (t : Task) (ts : List Task)
      → h.tasks ≡ t ∷ ts
      → queued counted (t ∷ []) + helper_account counted (record h { tasks = ts })
        ≡ helper_account counted h
  unfolding helper_account queued
  taken_task h (client_task k t) ts e = omega (arith, ap (queued counted) e)
  taken_task h rearms ts e = omega (arith, ap (queued counted) e)

  answers-see : (os : List Output) → seen_answers counted (see os) ≡ answered counted os
  unfolding seen_answers answered
  answers-see [] = refl
  answers-see (o ∷ os) = omega (arith, answers-see os, answered-append counted (o ∷ []) os)

  -- A task of the client.
  account-client_task :
      (t : Happening) (h : Helper)
      → has_client h.client ≡ true
      → helper_account counted (with_client (client_step t) h.client h)
        ≡ offers counted t + helper_account counted h
  account-client_task t h owned =
      account-on_client (client_step t) (offers counted t) h.client h (account-step counted t) refl
        (λ gone. absurd (no_client gone owned))

  account-rearm_task :
      (h : Helper) → helper_account counted (rearm_task h) ≡ helper_account counted h
  unfolding rearm_task
  account-rearm_task h =
      let h' : Helper = record h {
        timer = none;
        late_waits = cancel_wait h.timer h.late_waits;
        reconnect_pending = false;
      } in
      if_elim (λ r. helper_account counted r ≡ helper_account counted h)
        (not h.should_reconnect || h.user_stopped) h (do_connect h') (λ _. refl)
        (λ _. account-do_connect h' ∙ same_account counted h h' refl refl refl refl)

  account-timer :
      (cancelled : Bool) (h : Helper)
      → helper_account counted (timer_fires cancelled h) ≡ helper_account counted h
  unfolding timer_fires
  account-timer cancelled h =
      let h' : Helper = record h { reconnect_pending = false } in
      let same = same_account counted h h' refl refl refl refl in
      if_elim (λ r. helper_account counted r ≡ helper_account counted h) cancelled h' _ (λ _. same)
        (λ _.
          if_elim (λ r. helper_account counted r ≡ helper_account counted h)
            (h.should_reconnect && not h.user_stopped) (do_connect h') h'
            (λ _. account-do_connect h' ∙ same) (λ _. same))

  account-backoff :
      (t : Option ℕ) (h : Helper)
      → helper_account counted (backoff_expires t h) ≡ helper_account counted h
  unfolding backoff_expires
  account-backoff none h = refl
  account-backoff (some ms) h =
      let h' : Helper = record h { timer = none } in
      account-timer false h' ∙ same_account counted h h' refl refl refl refl

  account-late_wait :
      (cancelled : Bool) (n : ℕ) (h : Helper)
      → helper_account counted (late_wait_completes cancelled n h) ≡ helper_account counted h
  unfolding late_wait_completes
  account-late_wait cancelled zero h = refl
  account-late_wait cancelled (suc n) h =
      let h' : Helper = record h { late_waits = n } in
      account-timer cancelled h' ∙ same_account counted h h' refl refl refl refl

  no_offers : (t : Happening) → AsksNothing t → offers counted t ≡ 0
  unfolding offers
  no_offers (connect_starts has_callback) none_asked = refl
  no_offers (resolve_ends ec) none_asked = refl
  no_offers (connect_ends ec) none_asked = refl
  no_offers (write_ends ec) none_asked = refl
  no_offers connect_times_out none_asked = refl
  no_offers ping_timer_expires none_asked = refl
  no_offers client_closes none_asked = refl
  no_offers (packet_arrives bytes) none_asked = refl
  no_offers (read_fails ec) none_asked = refl
  no_offers (publish_runs topic payload qos cb) none_asked = absurd none_asked
  no_offers (subscribe_runs topic qos cb) none_asked = refl
  no_offers (disconnect_starts cb) none_asked = refl
  no_offers (publish_timer_expires packet_id) none_asked = refl
  no_offers (pubrec_timer_expires packet_id) none_asked = refl
  no_offers (enqueue_runs item) none_asked = refl
  no_offers (posted_call_runs item ec) none_asked = refl
  no_offers (posted_fail_runs ec) none_asked = refl

  account-post_task :
      (t : Task) (h : Helper)
      → helper_account counted (post_task t h) ≡ queued counted (t ∷ []) + helper_account counted h
  unfolding helper_account
  account-post_task t h = omega (arith, queued-append counted h.tasks (t ∷ []))

  account-rearm :
      (h : Helper) → helper_account counted (rearm_reconnect h).0 ≡ helper_account counted h
  unfolding rearm_reconnect queued
  account-rearm h =
      let h' : Helper = record h {
        should_reconnect = true;
        reconnect_attempts = 0;
        initial_connect = false;
      } in
      if_elim (λ (r : Helper × Bool). helper_account counted r.0 ≡ helper_account counted h)
        (not h.running || h.user_stopped) (h, false) _ (λ _. refl)
        (λ _.
          if_elim (λ (r : Helper × Bool). helper_account counted r.0 ≡ helper_account counted h)
            h.should_reconnect (h, true) _ (λ _. refl)
            (λ _.
              omega (
                arith,
                account-post_task rearms h',
                same_account counted h h' refl refl refl refl,
              )))

  account-run_task :
      (ts : List Task) (h : Helper)
      → h.tasks ≡ ts
      → has_client h.client ≡ true
      → helper_account counted (run_task ts h) ≡ helper_account counted h
  unfolding run_task queued
  account-run_task [] h e owned = refl
  account-run_task (client_task k t ∷ ts) h e owned = omega (
    arith,
    account-with_released (client_step t) (offers counted t) k [] h.released
        (record h { tasks = ts }) (account-step counted t) refl
        (λ gone. absurd (no_client gone owned)),
    taken_task h (client_task k t) ts e,
  )
  account-run_task (rearms ∷ ts) h e owned =
      omega (arith, account-rearm_task (record h { tasks = ts }), taken_task h rearms ts e)

  account-disconnect :
      (cb : Callback) (h : Helper)
      → helper_account counted (with_client (async_disconnect cb) h.client h)
        ≡ helper_account counted h
  unfolding offers async_disconnect client_step
  account-disconnect cb h = omega (
    arith,
    account-on_client (async_disconnect cb) 0 h.client h
        (account-step counted (disconnect_starts cb)) refl (λ _. refl),
  )

  account-stop_begins :
      (on_io : Bool) (h : Helper)
      → helper_account counted (stop_begins on_io h) ≡ helper_account counted h
  unfolding stop_begins
  account-stop_begins on_io h =
      let h' : Helper = record h {
        user_stopped = true;
        should_reconnect = false;
        timer = none;
        late_waits = cancel_wait h.timer h.late_waits;
        reconnect_pending = false;
        running = false;
      } in
      let h'' : Helper = record h' {
        io_stopped = if has_client h.client then h.io_stopped else true;
      } in
      if_elim (λ r. helper_account counted r ≡ helper_account counted h) on_io
        (with_client (async_disconnect (some 0)) h.client h'') _
        (λ _. account-disconnect (some 0) h'' ∙ same_account counted h h'' refl refl refl refl)
        (λ _.
          if_elim (λ r. helper_account counted r ≡ helper_account counted h) h.running
            (with_client (async_disconnect (some 1)) h.client h') h'
            (λ _. account-disconnect (some 1) h' ∙ same_account counted h h' refl refl refl refl)
            (λ _. same_account counted h h' refl refl refl refl))

  account-subscribe :
      (topic : List ℕ) (qos : ℕ) (cb : Callback) (h : Helper)
      → helper_account counted (subscribe topic qos cb h) ≡ helper_account counted h
  unfolding subscribe queued offers
  account-subscribe topic qos cb h =
      let h' : Helper = record h { subscribes = h.subscribes ++ (topic, qos) ∷ [] } in
      if_elim (λ r. helper_account counted r ≡ helper_account counted h)
        (not (has_connection h.client)) h' _ (λ _. same_account counted h h' refl refl refl refl)
        (λ _. omega (
          arith,
          account-post_task (client_task (length h.released) (subscribe_runs topic qos cb)) h',
          same_account counted h h' refl refl refl refl,
        ))

  account-publish_on :
      (client : Option Client) (topic payload : List ℕ) (qos : ℕ) (cb : Callback) (h : Helper)
      → helper_account counted (publish_on client topic payload qos cb h)
        ≡ weight counted cb qos + helper_account counted h
  unfolding publish_on queued offers
  account-publish_on none topic payload qos cb h = omega (
    arith,
    account-see counted (see (call_publish cb false topic qos 0)) h,
    answers-see (call_publish cb false topic qos 0),
    answered-call_publish counted cb false topic qos 0,
  )
  account-publish_on (some c) topic payload qos cb h = omega (
    arith,
    account-post_task (client_task (length h.released) (publish_runs topic payload qos cb)) h,
  )

  helper_step-account :
      (e : Event) (es : List Event) (h : Helper)
      → KeepsClient (e ∷ es)
      → has_client h.client ≡ true
      → (helper_account counted (helper_step e h) ≡ asks e + helper_account counted h)
        × KeepsClient es
  unfolding helper_step asks publish on_message
  helper_step-account starts es h keeps owned = absurd keeps
  helper_step-account stop_waits_over es h keeps owned = absurd keeps
  helper_step-account backoff_ends es h keeps owned =
      (omega (arith, account-backoff h.timer h), keeps)
  helper_step-account rearm_called es h keeps owned = (omega (arith, account-rearm h), keeps)
  helper_step-account task_runs es h keeps owned =
      (omega (arith, account-run_task h.tasks h refl owned), keeps)
  helper_step-account (stop_called on_io) es h keeps owned =
      (omega (arith, account-stop_begins on_io h), keeps)
  helper_step-account (message_callback_set cb) es h keeps owned = (
    omega (arith, same_account counted h (record h { message_callback = cb }) refl refl refl refl),
    keeps,
  )
  helper_step-account (subscribe_called topic qos cb) es h keeps owned =
      (omega (arith, account-subscribe topic qos cb h), keeps)
  helper_step-account (publish_called topic payload qos cb) es h keeps owned =
      (account-publish_on h.client topic payload qos cb h, keeps)
  helper_step-account (io_runs t) es h keeps owned = (account-client_task t h owned, keeps)
  helper_step-account (late_wait_ends cancelled) es h keeps owned =
      (omega (arith, account-late_wait cancelled h.late_waits h), keeps)
  helper_step-account (released_runs n t) es h (none_asked, keeps) owned = (
    omega (
      arith,
      account-with_released (client_step t) (offers counted t) n [] h.released h
          (account-step counted t) refl (λ gone. no_offers t none_asked),
      no_offers t none_asked,
    ),
    keeps,
  )

  -- Over any run of a helper that has a client, between start() and the end of stop(), in which the
  -- clients that were let go before run no publishes but those posted through the helper, the callback
  -- of each publish with QoS 1 or 2 is called exactly once, is owed by the session or one before it, or
  -- its publish waits for the io thread: the three together grow by the publishes that were asked for, and by nothing else.
  -- Losses of the connection, retries and the beginning of stop() lose none and call none twice.
  pub helper_publishes_answered_once :
      (es : List Event) (h : Helper)
      → KeepsClient es
      → has_client h.client ≡ true
      → helper_account counted (helper_run es h) ≡ all_asks es + helper_account counted h
  unfolding helper_run all_asks
  helper_publishes_answered_once [] h keeps owned = omega arith
  helper_publishes_answered_once (e ∷ es) h keeps owned =
      let (step, rest) = helper_step-account e es h keeps owned in
      omega (
        arith,
        helper_publishes_answered_once es (helper_step e h) rest
            (helper_step-has_client e es h keeps ∙ owned),
        step,
      )
