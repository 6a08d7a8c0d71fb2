-- ===== src/Helper/Restart.antt =====
-- Starting a helper again.
use lite_mqtt.Prelude.{
  ◌≡◌, refl, ap, ◌∙◌, Bool, true, false, not, ◌&&◌, ◌||◌, Option, none, some, List, [], ◌∷◌, arith,
  if_elim, ◌==◌, if◌then◌else◌,
}
use lite_mqtt.Client.{
  Client, Output, calls_connect, calls_message, calls_close, calls_publish, calls_subscribe,
  calls_disconnected, starts_connect, starts_read, posts_write, transport,
}
use lite_mqtt.Client.Session.{close_client}
use lite_mqtt.Client.Sending.{async_disconnect}
use lite_mqtt.Helper.{Helper}
use lite_mqtt.Helper.Policy.{
  do_reconnect, connect_callback, close_callback, do_connect, cancel_wait,
}
use lite_mqtt.Helper.Callbacks.{react, react_all, disconnected_callback, with_client}
use lite_mqtt.Helper.Lifecycle.{
  start, start_io_thread, init_client, setup_callbacks, silenced, release_with, release_client,
  has_client, stop_begins, stop_ends,
}

-- The three fields that decide about a start.
abbrev SameThread : Helper → Helper → Type 0
SameThread h h' =
    (h'.running ≡ h.running) × (h'.io_thread ≡ h.io_thread) × (h'.terminated ≡ h.terminated)

do_reconnect-same : (h : Helper) → SameThread h (do_reconnect h)
unfolding do_reconnect
do_reconnect-same h = (ground arith, ground arith, ground arith)

react-same : (o : Output) (h : Helper) → SameThread h (react o h)
unfolding react connect_callback close_callback disconnected_callback
react-same (calls_connect true code) h = (refl, refl, refl)
react-same (calls_connect false code) h = do_reconnect-same h
react-same (calls_message topic payload qos id) h = (refl, refl, refl)
react-same calls_close h =
    if_elim (SameThread h) (h.should_reconnect && not h.user_stopped) (do_reconnect h) h
      (λ _. do_reconnect-same h) (λ _. (refl, refl, refl))
react-same (calls_disconnected cb) h =
    if_elim (SameThread h) (cb == 0) (record h { io_stopped = true }) h (λ _. (refl, refl, refl))
      (λ _. (refl, refl, refl))
react-same (calls_publish cb success topic qos id) h = (refl, refl, refl)
react-same (calls_subscribe cb success topic qos) h = (refl, refl, refl)
react-same starts_connect h = (refl, refl, refl)
react-same starts_read h = (refl, refl, refl)
react-same (posts_write item) h = (refl, refl, refl)
react-same (transport e) h = (refl, refl, refl)

react_all-same : (os : List Output) (h : Helper) → SameThread h (react_all os h)
unfolding react_all
react_all-same [] h = (refl, refl, refl)
react_all-same (o ∷ os) h =
    let (a, b, c) = react-same o h in
    let (a', b', c') = react_all-same os (react o h) in (a' ∙ a, b' ∙ b, c' ∙ c)

with_client-same :
    (f : Client → Client) (o : Option Client) (h : Helper) → SameThread h (with_client f o h)
unfolding with_client
with_client-same f none h = (refl, refl, refl)
with_client-same f (some c) h =
    react_all-same (f c).trace (record h { client = some (record (f c) { trace = [] }) })

release-same : (o : Option Client) (h : Helper) → SameThread h (release_with o h)
unfolding release_with
release-same none h = (refl, refl, refl)
release-same (some c) h =
    let closed = close_client (silenced c) in
    react_all-same closed.trace
      (record h { client = none; released = record closed { trace = [] } ∷ h.released })

or_false : (b : Bool) → (b || false) ≡ b
or_false true = refl
or_false false = refl

or_true : (b : Bool) → (b || true) ≡ true
or_true true = refl
or_true false = refl

start-terminated :
    (h : Helper) → h.running ≡ false → (start h).terminated ≡ (h.terminated || h.io_thread)
unfolding start start_io_thread do_connect setup_callbacks init_client
start-terminated h idle =
    if_elim (λ (r : Helper). r.terminated ≡ (h.terminated || h.io_thread)) h.running h _
      (λ on. absurd (ground arith)) (λ _. refl)

-- What stop() leaves behind on its way.
stop_begins-same :
    (on_io : Bool) (h : Helper) → SameThread (record h { running = false }) (stop_begins on_io h)
unfolding stop_begins
stop_begins-same on_io h =
    let h' : Helper = record h {
      user_stopped = true;
      should_reconnect = false;
      timer = none;
      late_waits = cancel_wait h.timer h.late_waits;
      reconnect_pending = false;
      running = false;
    } in
    if_elim (SameThread (record h { running = false })) on_io _ _
      (λ _.
        with_client-same (async_disconnect (some 0)) h.client
          (record h' { io_stopped = if has_client h.client then h.io_stopped else true }))
      (λ _.
        if_elim (SameThread (record h { running = false })) h.running
          (with_client (async_disconnect (some 1)) h.client h') h'
          (λ _. with_client-same (async_disconnect (some 1)) h.client h') (λ _. (refl, refl, refl)))

-- A helper whose stop() ran to its end can be started again. A helper that was stopped on its own io
-- thread still has that thread: starting it without another stop() first calls std::terminate().
pub start-stop_on_io_thread :
    (h : Helper)
    → h.io_thread ≡ true
    → ((start (stop_ends (stop_begins false h))).terminated ≡ h.terminated)
      × ((start (stop_begins true h)).terminated ≡ true)
unfolding stop_ends release_client
start-stop_on_io_thread h thread =
    let stopped = stop_begins false h in
    let (idle, kept, calm) = stop_begins-same false h in
    let ending : Helper = record stopped {
      io_stopped = if stopped.io_thread then true else stopped.io_stopped;
      io_thread = false;
    } in
    let (idle', kept', calm') = release-same ending.client ending in
    let (idle'', kept'', calm'') = stop_begins-same true h in
    (
      start-terminated (stop_ends stopped) (idle' ∙ idle)
          ∙ rw (calm', kept', calm) (or_false h.terminated),
      start-terminated (stop_begins true h) idle''
          ∙ ap (λ b. (stop_begins true h).terminated || b) (kept'' ∙ thread)
          ∙ or_true (stop_begins true h).terminated,
    )
