-- ===== src/Helper/Accounts/Keeps.antt =====
-- Which runs of a helper keep its client.
use lite_mqtt.Prelude.{
  ℕ, zero, suc, length, ◌++◌, ◌≡◌, refl, ap, sym, ◌∙◌, Bool, true, false, not, Option, none, some,
  List, [], ◌∷◌, if_elim, arith, ◌&&◌, ◌||◌, if◌then◌else◌, ◌==◌,
}
use lite_mqtt.Client.{
  Callback, Client, Output, calls_connect, calls_message, calls_close, calls_publish,
  calls_subscribe, calls_disconnected, starts_connect, starts_read, posts_write, transport,
}
use lite_mqtt.Client.Sending.{async_disconnect}
use lite_mqtt.Client.Events.{Happening, publish_runs, client_step}
use lite_mqtt.Helper.{Task, client_task, rearms, Helper}
use lite_mqtt.Helper.Policy.{
  do_connect, cancel_wait, do_reconnect, connect_callback, close_callback, timer_fires, rearm_task,
  rearm_reconnect,
}
use lite_mqtt.Helper.Callbacks.{
  react, react_all, disconnected_callback, with_client, with_released, on_message, subscribe,
  publish, publish_on,
}
use lite_mqtt.Helper.Lifecycle.{stop_begins, has_client}
use lite_mqtt.Helper.Events.{
  Event, starts, stop_waits_over, backoff_ends, rearm_called, task_runs, stop_called,
  message_callback_set, subscribe_called, publish_called, io_runs, late_wait_ends, released_runs,
  run_task, backoff_expires, late_wait_completes, helper_step,
}
use lite_mqtt.Helper.Orderly.{has_client-connect}
use lite_mqtt.Helper.Accounts.{do_reconnect_keeps}

-- What the handlers of a client that was let go run: anything but a publish, which would be new.
abbrev pub AsksNothing : Happening → Type 0
AsksNothing (publish_runs topic payload qos cb) = ⊥
AsksNothing _ = Unit

-- Neither start() nor the end of stop(), which replace the client.
abbrev pub KeepsClient : List Event → Type 0
KeepsClient [] = Unit
KeepsClient (starts ∷ es) = ⊥
KeepsClient (stop_waits_over ∷ es) = ⊥
KeepsClient (backoff_ends ∷ es) = KeepsClient es
KeepsClient (rearm_called ∷ es) = KeepsClient es
KeepsClient (task_runs ∷ es) = KeepsClient es
KeepsClient (stop_called on_io ∷ es) = KeepsClient es
KeepsClient (message_callback_set cb ∷ es) = KeepsClient es
KeepsClient (subscribe_called topic qos cb ∷ es) = KeepsClient es
KeepsClient (publish_called topic payload qos cb ∷ es) = KeepsClient es
KeepsClient (io_runs t ∷ es) = KeepsClient es
KeepsClient (late_wait_ends cancelled ∷ es) = KeepsClient es
KeepsClient (released_runs n t ∷ es) = AsksNothing t × KeepsClient es

abbrev Keeps : (Helper → Helper) → Helper → Type 0
Keeps f h = has_client (f h).client ≡ has_client h.client

do_reconnect-client : (h : Helper) → (do_reconnect h).client ≡ h.client
do_reconnect-client h =
    let (seen, client, released, tasks, subscribes) = do_reconnect_keeps h in client

react_keeps : (o : Output) (h : Helper) → (react o h).client ≡ h.client
unfolding react connect_callback close_callback disconnected_callback
react_keeps (calls_connect true code) h = refl
react_keeps (calls_connect false code) h = do_reconnect-client h
react_keeps (calls_message topic payload qos id) h = refl
react_keeps calls_close h =
    if_elim (λ r. r.client ≡ h.client) (h.should_reconnect && not h.user_stopped) (do_reconnect h) h
      (λ _. do_reconnect-client h) (λ _. refl)
react_keeps (calls_disconnected cb) h =
    if_elim (λ r. r.client ≡ h.client) (cb == 0) (record h { io_stopped = true }) h (λ _. refl)
      (λ _. refl)
react_keeps (calls_publish cb success topic qos id) h = refl
react_keeps (calls_subscribe cb success topic qos) h = refl
react_keeps starts_connect h = refl
react_keeps starts_read h = refl
react_keeps (posts_write item) h = refl
react_keeps (transport e) h = refl

pub react_all_keeps : (os : List Output) (h : Helper) → (react_all os h).client ≡ h.client
unfolding react_all
react_all_keeps [] h = refl
react_all_keeps (o ∷ os) h = react_all_keeps os (react o h) ∙ react_keeps o h

with_client-Keeps :
    (f : Client → Client) (client : Option Client) (h : Helper)
    → h.client ≡ client
    → Keeps (with_client f client) h
unfolding with_client has_client
with_client-Keeps f none h e = refl
with_client-Keeps f (some c) h e =
    ap has_client
      (react_all_keeps (f c).trace (record h { client = some (record (f c) { trace = [] }) }))
    ∙ ap has_client (sym e)

do_connect-Keeps : (h : Helper) → Keeps do_connect h
unfolding do_connect
do_connect-Keeps h = has_client-connect h.client

with_released-Keeps :
    (f : Client → Client) (k : ℕ) (before cs : List Client) (h : Helper)
    → Keeps (with_released f k before cs) h
unfolding with_released
with_released-Keeps f k before [] h = with_client-Keeps f h.client h refl
with_released-Keeps f k before (c ∷ cs) h =
    let later = with_released-Keeps f k (before ++ c ∷ []) cs h in
    if_elim (λ (r : Helper). has_client r.client ≡ has_client h.client) (length cs == k) _ _
      (λ _. ap has_client (react_all_keeps (f c).trace _)) (λ _. later)

run_task-Keeps : (ts : List Task) (h : Helper) → Keeps (run_task ts) h
unfolding run_task rearm_task
run_task-Keeps [] h = refl
run_task-Keeps (client_task k t ∷ ts) h =
    with_released-Keeps (client_step t) k [] h.released (record h { tasks = ts })
run_task-Keeps (rearms ∷ ts) h =
    if_elim (λ (r : Helper). has_client r.client ≡ has_client h.client)
      (not h.should_reconnect || h.user_stopped) (record h { tasks = ts }) _ (λ _. refl)
      (λ _. do_connect-Keeps (record h {
        tasks = ts;
        timer = none;
        late_waits = cancel_wait h.timer h.late_waits;
        reconnect_pending = false;
      }))

timer-Keeps : (cancelled : Bool) (h : Helper) → Keeps (timer_fires cancelled) h
unfolding timer_fires
timer-Keeps cancelled h =
    let h' : Helper = record h { reconnect_pending = false } in
    if_elim (λ (r : Helper). has_client r.client ≡ has_client h.client) cancelled h' _ (λ _. refl)
      (λ _.
        if_elim (λ (r : Helper). has_client r.client ≡ has_client h.client)
          (h.should_reconnect && not h.user_stopped) (do_connect h') h' (λ _. do_connect-Keeps h')
          (λ _. refl))

late_wait-Keeps :
    (cancelled : Bool) (n : ℕ) (h : Helper) → Keeps (late_wait_completes cancelled n) h
unfolding late_wait_completes
late_wait-Keeps cancelled zero h = refl
late_wait-Keeps cancelled (suc n) h = timer-Keeps cancelled (record h { late_waits = n })

backoff-Keeps : (t : Option ℕ) (h : Helper) → Keeps (backoff_expires t) h
unfolding backoff_expires
backoff-Keeps none h = refl
backoff-Keeps (some ms) h = timer-Keeps false (record h { timer = none })

stop_begins-Keeps : (on_io : Bool) (h : Helper) → Keeps (stop_begins on_io) h
unfolding stop_begins
stop_begins-Keeps on_io h =
    let h' : Helper = record h {
      user_stopped = true;
      should_reconnect = false;
      timer = none;
      late_waits = cancel_wait h.timer h.late_waits;
      reconnect_pending = false;
      running = false;
    } in
    if_elim (λ (r : Helper). has_client r.client ≡ has_client h.client) on_io _ _
      (λ _.
        with_client-Keeps (async_disconnect (some 0)) h.client
          (record h' { io_stopped = if has_client h.client then h.io_stopped else true }) refl)
      (λ _.
        if_elim (λ (r : Helper). has_client r.client ≡ has_client h.client) h.running
          (with_client (async_disconnect (some 1)) h.client h') h'
          (λ _. with_client-Keeps (async_disconnect (some 1)) h.client h' refl) (λ _. refl))

rearm_keeps : (h : Helper) → (rearm_reconnect h).0.client ≡ h.client
unfolding rearm_reconnect
rearm_keeps h = ground arith

subscribe_keeps :
    (topic : List ℕ) (qos : ℕ) (cb : Callback) (h : Helper)
    → (subscribe topic qos cb h).client ≡ h.client
unfolding subscribe
subscribe_keeps topic qos cb h = ground arith

publish_on_keeps :
    (client : Option Client) (topic payload : List ℕ) (qos : ℕ) (cb : Callback) (h : Helper)
    → (publish_on client topic payload qos cb h).client ≡ h.client
unfolding publish_on
publish_on_keeps none topic payload qos cb h = refl
publish_on_keeps (some c) topic payload qos cb h = refl

pub helper_step-has_client :
    (e : Event) (es : List Event) (h : Helper) → KeepsClient (e ∷ es) → Keeps (helper_step e) h
unfolding helper_step on_message publish
helper_step-has_client starts es h keeps = absurd keeps
helper_step-has_client stop_waits_over es h keeps = absurd keeps
helper_step-has_client backoff_ends es h keeps = backoff-Keeps h.timer h
helper_step-has_client rearm_called es h keeps = ap has_client (rearm_keeps h)
helper_step-has_client task_runs es h keeps = run_task-Keeps h.tasks h
helper_step-has_client (stop_called on_io) es h keeps = stop_begins-Keeps on_io h
helper_step-has_client (message_callback_set cb) es h keeps = refl
helper_step-has_client (subscribe_called topic qos cb) es h keeps =
    ap has_client (subscribe_keeps topic qos cb h)
helper_step-has_client (publish_called topic payload qos cb) es h keeps =
    ap has_client (publish_on_keeps h.client topic payload qos cb h)
helper_step-has_client (io_runs t) es h keeps = with_client-Keeps (client_step t) h.client h refl
helper_step-has_client (late_wait_ends cancelled) es h keeps =
    late_wait-Keeps cancelled h.late_waits h
helper_step-has_client (released_runs n t) es h keeps =
    with_released-Keeps (client_step t) n [] h.released h
