-- ===== src/Helper/Orderly/Callbacks.antt =====
-- The callbacks of the client keep a helper in order.
use lite_mqtt.Prelude.{
  ℕ, length, ◌++◌, ◌≡◌, refl, true, Option, none, some, List, [], ◌∷◌, if_elim, ◌==◌,
}
use lite_mqtt.Client.{
  Client, Output, calls_connect, calls_message, calls_close, calls_publish, calls_subscribe,
  calls_disconnected, starts_connect, starts_read, posts_write, transport,
}
use lite_mqtt.Client.Bounds.{IsSound}
use lite_mqtt.Helper.{Helper}
use lite_mqtt.Helper.Callbacks.{react, react_all, with_client, with_released, disconnected_callback}
use lite_mqtt.Helper.Lifecycle.{has_client}
use lite_mqtt.Helper.Orderly.{
  SoundClient, IsOrderly, connect_callback-IsOrderly, close_callback-IsOrderly,
}

-- Changes of what is not spoken of.
pub frame :
    (h h' : Helper)
    → IsOrderly h
    → h'.timer ≡ h.timer
    → h'.reconnect_pending ≡ h.reconnect_pending
    → h'.should_reconnect ≡ h.should_reconnect
    → h'.user_stopped ≡ h.user_stopped
    → h'.running ≡ h.running
    → h'.client ≡ h.client
    → h'.reconnect_attempts ≡ h.reconnect_attempts
    → IsOrderly h'
frame h h' o timer pending should stopped running client attempts = record {
  one_retry = rw (timer, pending) o.one_retry;
  waits = rw (timer, running) o.waits;
  armed = rw (pending, should) o.armed;
  wanted = rw (should, stopped) o.wanted;
  live = rw (should, running) o.live;
  owned = rw (running, client) o.owned;
  few = rw attempts o.few;
  sound = rw client o.sound;
}

react-IsOrderly : (out : Output) (h : Helper) → IsOrderly h → IsOrderly (react out h)
unfolding react disconnected_callback
react-IsOrderly (calls_connect success code) h o = connect_callback-IsOrderly success h o
react-IsOrderly (calls_message topic payload qos id) h o =
    frame h _ o refl refl refl refl refl refl refl
react-IsOrderly calls_close h o = close_callback-IsOrderly h o
react-IsOrderly (calls_disconnected cb) h o =
    if_elim IsOrderly (cb == 0) (record h { io_stopped = true }) h
      (λ _. frame h _ o refl refl refl refl refl refl refl) (λ _. o)
react-IsOrderly (calls_publish cb success topic qos id) h o =
    frame h _ o refl refl refl refl refl refl refl
react-IsOrderly (calls_subscribe cb success topic qos) h o =
    frame h _ o refl refl refl refl refl refl refl
react-IsOrderly starts_connect h o = o
react-IsOrderly starts_read h o = o
react-IsOrderly (posts_write item) h o = o
react-IsOrderly (transport e) h o = o

pub react_all-IsOrderly :
    (outs : List Output) (h : Helper) → IsOrderly h → IsOrderly (react_all outs h)
unfolding react_all
react_all-IsOrderly [] h o = o
react_all-IsOrderly (out ∷ outs) h o =
    react_all-IsOrderly outs (react out h) (react-IsOrderly out h o)

-- A client for the old one.
replaced :
    (c : Client) (h : Helper) → IsSound c → IsOrderly h → IsOrderly (record h { client = some c })
unfolding has_client
replaced c h s o = record {
  one_retry = o.one_retry;
  waits = o.waits;
  armed = o.armed;
  wanted = o.wanted;
  live = o.live;
  owned = λ _. refl;
  few = o.few;
  sound = s;
}

pub with_client-IsOrderly :
    (f : Client → Client) (client : Option Client) (h : Helper)
    → ((c : Client) → IsSound c → IsSound (f c))
    → SoundClient client
    → IsOrderly h
    → IsOrderly (with_client f client h)
unfolding with_client
with_client-IsOrderly f none h keeps s o = o
with_client-IsOrderly f (some c) h keeps s o =
    react_all-IsOrderly (f c).trace _ (replaced (record (f c) { trace = [] }) h (keeps c s) o)

pub with_released-IsOrderly :
    (f : Client → Client) (k : ℕ) (before cs : List Client) (h : Helper)
    → ((c : Client) → IsSound c → IsSound (f c))
    → IsOrderly h
    → IsOrderly (with_released f k before cs h)
unfolding with_released
with_released-IsOrderly f k before [] h keeps o = with_client-IsOrderly f h.client h keeps o.sound o
with_released-IsOrderly f k before (c ∷ cs) h keeps o =
    let later = with_released-IsOrderly f k (before ++ c ∷ []) cs h keeps o in
    if_elim IsOrderly (length cs == k) _ _
      (λ _. react_all-IsOrderly (f c).trace _ (frame h _ o refl refl refl refl refl refl refl))
      (λ _. later)
