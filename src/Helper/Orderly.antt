-- ===== src/Helper/Orderly.antt =====
-- What holds of a helper at every moment: its flags, its timer and its client belong together.
pub mod Callbacks
pub mod Runs
use lite_mqtt.Prelude.{
  ℕ, ◌+◌, ◌≤◌, ◌≡◌, refl, ◌∙◌, subst, sym, Bool, true, false, not, ◌||◌, ◌&&◌, Option, none, some,
  List, [], ◌∷◌, ◌++◌, arith, if_elim, ltb, is_empty, ◌==◌, Option-cases, inl, inr, if◌then◌else◌,
}
use lite_mqtt.Client.{Client, Output, PingTimer}
use lite_mqtt.Client.Session.{close_client}
use lite_mqtt.Client.Sending.{async_connect, async_disconnect}
use lite_mqtt.Client.Events.{Happening, client_step}
use lite_mqtt.Client.Bounds.{IsSound}
use lite_mqtt.Client.Bounds.Runs.{client_step-IsSound}
use lite_mqtt.Helper.{Helper, rearms, post_task}
use lite_mqtt.Helper.Policy.{
  connect_client, do_connect, cancel_wait, is_exhausted, delay_ms, count_attempt, max_counted,
  do_reconnect, timer_fires, connect_callback, close_callback, rearm_reconnect, rearm_task,
}
use lite_mqtt.Helper.Lifecycle.{has_client}

abbrev pub has_timer : Option ℕ → Bool
has_timer none = false
has_timer (some ms) = true

abbrev pub SoundClient : Option Client → Type 0
SoundClient none = Unit
SoundClient (some c) = IsSound c

-- reconnect_pending_ is set only while the timer is armed and reconnecting is; the timer is armed, and
-- reconnecting is, only while the helper runs, and reconnecting only while the user did not stop it; a
-- helper that runs has a client.
pub record IsOrderly (h : Helper) : Type 0 where
  pub one_retry : h.reconnect_pending ≡ true → has_timer h.timer ≡ true
  pub waits : has_timer h.timer ≡ true → h.running ≡ true
  pub armed : h.reconnect_pending ≡ true → h.should_reconnect ≡ true
  pub wanted : h.should_reconnect ≡ true → h.user_stopped ≡ false
  pub live : h.should_reconnect ≡ true → h.running ≡ true
  pub owned : h.running ≡ true → has_client h.client ≡ true
  pub few : h.reconnect_attempts ≤ 1000000
  pub sound : SoundClient h.client

count_attempt-le : (n : ℕ) → n ≤ 1000000 → count_attempt n ≤ 1000000
unfolding count_attempt max_counted
count_attempt-le n h = ground arith

pub do_reconnect-IsOrderly : (h : Helper) → IsOrderly h → IsOrderly (do_reconnect h)
unfolding do_reconnect
do_reconnect-IsOrderly h o =
    let given_up : Helper = record h { should_reconnect = false; reconnect_pending = false } in
    let waiting : Helper = record h {
      reconnect_pending = true;
      reconnect_attempts = count_attempt h.reconnect_attempts;
      late_waits = cancel_wait h.timer h.late_waits;
      timer =
          some (delay_ms h.max_reconnect_attempts h.base_reconnect_delay_ms h.reconnect_attempts);
    } in
    let tired = is_exhausted h.max_reconnect_attempts h.reconnect_attempts in
    if_elim IsOrderly (not h.should_reconnect || h.user_stopped) h
      (if h.reconnect_pending then h else if tired then given_up else waiting) (λ _. o)
      (λ wanted.
        if_elim IsOrderly h.reconnect_pending h (if tired then given_up else waiting) (λ _. o)
          (λ free.
            if_elim IsOrderly tired given_up waiting
              (λ _. record {
                one_retry = λ e. cc;
                waits = o.waits;
                armed = λ e. cc;
                wanted = λ e. cc;
                live = λ e. cc;
                owned = o.owned;
                few = o.few;
                sound = o.sound;
              })
              (λ _. record {
                one_retry = λ _. refl;
                waits = λ _. o.live (ground arith);
                armed = λ _. ground arith;
                wanted = o.wanted;
                live = o.live;
                owned = o.owned;
                few = count_attempt-le h.reconnect_attempts o.few;
                sound = o.sound;
              })))

connect_client_sound : (o : Option Client) → SoundClient o → SoundClient (connect_client o)
unfolding connect_client async_connect
connect_client_sound none s = tt
connect_client_sound (some c) s = s

pub has_client-connect : (o : Option Client) → has_client (connect_client o) ≡ has_client o
unfolding connect_client has_client
has_client-connect none = refl
has_client-connect (some c) = refl

pub do_connect-IsOrderly : (h : Helper) → IsOrderly h → IsOrderly (do_connect h)
unfolding do_connect
do_connect-IsOrderly h o = record {
  one_retry = o.one_retry;
  waits = o.waits;
  armed = o.armed;
  wanted = o.wanted;
  live = o.live;
  owned = λ running. has_client-connect h.client ∙ o.owned running;
  few = o.few;
  sound = connect_client_sound h.client o.sound;
}

-- With the flag cleared, whether a wait is armed or not.
cleared :
    (t : Option ℕ) (h : Helper)
    → (has_timer t ≡ true → h.running ≡ true)
    → IsOrderly h
    → IsOrderly (record h { timer = t; reconnect_pending = false })
cleared t h live o = record {
  one_retry = λ e. cc;
  waits = live;
  armed = λ e. cc;
  wanted = o.wanted;
  live = o.live;
  owned = o.owned;
  few = o.few;
  sound = o.sound;
}

-- With no retry armed.
disarmed :
    (late : ℕ) (h : Helper)
    → IsOrderly h
    → IsOrderly (record h { timer = none; late_waits = late; reconnect_pending = false })
disarmed late h o = record {
  one_retry = λ e. cc;
  waits = λ e. cc;
  armed = λ e. cc;
  wanted = o.wanted;
  live = o.live;
  owned = o.owned;
  few = o.few;
  sound = o.sound;
}

pub wait_over : (late : ℕ) (h : Helper) → IsOrderly h → IsOrderly (record h { late_waits = late })
wait_over late h o = record {
  one_retry = o.one_retry;
  waits = o.waits;
  armed = o.armed;
  wanted = o.wanted;
  live = o.live;
  owned = o.owned;
  few = o.few;
  sound = o.sound;
}

-- `t` is what is left armed when the handler of a wait runs.
pub timer_fires-IsOrderly :
    (cancelled : Bool) (t : Option ℕ) (h : Helper)
    → (has_timer t ≡ true → h.running ≡ true)
    → IsOrderly h
    → IsOrderly (timer_fires cancelled (record h { timer = t }))
unfolding timer_fires
timer_fires-IsOrderly cancelled t h live o =
    let h' : Helper = record h { timer = t; reconnect_pending = false } in
    let o' = cleared t h live o in
    if_elim IsOrderly cancelled h' _ (λ _. o')
      (λ _.
        if_elim IsOrderly (h.should_reconnect && not h.user_stopped) (do_connect h') h'
          (λ _. do_connect-IsOrderly h' o') (λ _. o'))

pub rearm_task-IsOrderly : (h : Helper) → IsOrderly h → IsOrderly (rearm_task h)
unfolding rearm_task
rearm_task-IsOrderly h o =
    if_elim IsOrderly (not h.should_reconnect || h.user_stopped) h _ (λ _. o)
      (λ _. do_connect-IsOrderly _ (disarmed (cancel_wait h.timer h.late_waits) h o))

pub connect_callback-IsOrderly :
    (success : Bool) (h : Helper) → IsOrderly h → IsOrderly (connect_callback success h)
unfolding connect_callback
connect_callback-IsOrderly false h o = do_reconnect-IsOrderly h o
connect_callback-IsOrderly true h o = record {
  one_retry = o.one_retry;
  waits = o.waits;
  armed = o.armed;
  wanted = o.wanted;
  live = o.live;
  owned = o.owned;
  few = omega arith;
  sound = o.sound;
}

pub close_callback-IsOrderly : (h : Helper) → IsOrderly h → IsOrderly (close_callback h)
unfolding close_callback
close_callback-IsOrderly h o =
    if_elim IsOrderly (h.should_reconnect && not h.user_stopped) (do_reconnect h) h
      (λ _. do_reconnect-IsOrderly h o) (λ _. o)

rearmed :
    (h : Helper)
    → h.running ≡ true
    → h.user_stopped ≡ false
    → IsOrderly h
    → IsOrderly (
        post_task rearms
          (record h { should_reconnect = true; reconnect_attempts = 0; initial_connect = false }))
rearmed h running stopped o = record {
  one_retry = o.one_retry;
  waits = o.waits;
  armed = λ _. refl;
  wanted = λ _. stopped;
  live = λ _. running;
  owned = o.owned;
  few = omega arith;
  sound = o.sound;
}

pub rearm_reconnect-IsOrderly : (h : Helper) → IsOrderly h → IsOrderly (rearm_reconnect h).0
unfolding rearm_reconnect
rearm_reconnect-IsOrderly h o =
    if_elim (λ (r : Helper × Bool). IsOrderly r.0) (not h.running || h.user_stopped) (h, false) _
      (λ _. o)
      (λ live.
        if_elim (λ (r : Helper × Bool). IsOrderly r.0) h.should_reconnect (h, true) _ (λ _. o)
          (λ _. rearmed h (ground arith) (ground arith) o))
