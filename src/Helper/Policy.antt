-- ===== src/Helper/Policy.antt =====
-- inc/litemqtt/mqtt_helper.hpp: the configuration and the reconnect policy.
use lite_mqtt.Prelude.{
  ℕ, zero, suc, ◌+◌, ◌*◌, ◌^◌, min, Bool, true, false, not, ◌||◌, ◌&&◌, Option, none, some, List,
  [], ◌∷◌, ◌++◌, length, ltb, leb, if◌then◌else◌,
}
use lite_mqtt.Client.{Client}
use lite_mqtt.Client.Sending.{async_connect}
use lite_mqtt.Client.Settings.{async_subscribe}
use lite_mqtt.Prelude.Int.{at_least_zero}
use lite_mqtt.Helper.{ℤ, pos, negsuc, Task, client_task, rearms, Helper, post_task}

pub set_credentials : List ℕ → List ℕ → Helper → Helper
set_credentials username password h = record h { username = username; password = password }

pub set_keep_alive : ℕ → Helper → Helper
set_keep_alive seconds h = record h { keep_alive_seconds = seconds }

pub set_clean_session : Bool → Helper → Helper
set_clean_session clean h = record h { clean_session = clean }

pub set_connect_timeout : ℤ → Helper → Helper
set_connect_timeout ms h = record h { connect_timeout_ms = at_least_zero ms }

unfoldable pub set_max_attempts : ℤ → ℤ
set_max_attempts (pos n) = pos n
set_max_attempts (negsuc zero) = negsuc zero
set_max_attempts (negsuc (suc n)) = pos 0

unfoldable pub set_reconnect_config : ℤ → ℤ → Helper → Helper
unfolding set_max_attempts
set_reconnect_config max_attempts base_delay_ms h = record h {
  max_reconnect_attempts = set_max_attempts max_attempts;
  base_reconnect_delay_ms = at_least_zero base_delay_ms;
}

-- What do_connect() makes of the client: async_connect() calls no callback, so its output is dropped.
unfoldable pub connect_client : Option Client → Option Client
connect_client none = none
connect_client (some c) = some (record (async_connect false c) { trace = c.trace })

unfoldable pub do_connect : Helper → Helper
unfolding connect_client
do_connect h = record h { connects = h.connects + 1; client = connect_client h.client }

-- What cancel() and expires_after() do to a wait that is armed.
unfoldable pub cancel_wait : Option ℕ → ℕ → ℕ
cancel_wait none late = late
cancel_wait (some ms) late = late + 1

-- Whether do_reconnect() gives up.
unfoldable pub is_exhausted : ℤ → ℕ → Bool
is_exhausted (negsuc zero) attempts = false
is_exhausted (negsuc (suc n)) attempts = true
is_exhausted (pos max_attempts) attempts = leb max_attempts attempts

unfoldable pub grown_delay : ℕ → ℕ → ℕ
grown_delay base attempts = base * 2 ^ min attempts 20

unfoldable pub delay_ms : ℤ → ℕ → ℕ → ℕ
unfolding grown_delay
delay_ms (negsuc zero) base attempts = base
delay_ms (negsuc (suc n)) base attempts = min (grown_delay base attempts) 30000
delay_ms (pos max_attempts) base attempts = min (grown_delay base attempts) 30000

unfoldable pub max_counted : ℕ
max_counted = 1000000

unfoldable pub count_attempt : ℕ → ℕ
unfolding max_counted
count_attempt attempts = if ltb attempts max_counted then attempts + 1 else attempts

unfoldable pub do_reconnect : Helper → Helper
unfolding is_exhausted delay_ms count_attempt cancel_wait
do_reconnect h =
    if not h.should_reconnect || h.user_stopped
    then h
    else if h.reconnect_pending
    then h
    else if is_exhausted h.max_reconnect_attempts h.reconnect_attempts
    then record h { should_reconnect = false; reconnect_pending = false }
    else record h {
      reconnect_pending = true;
      reconnect_attempts = count_attempt h.reconnect_attempts;
      late_waits = cancel_wait h.timer h.late_waits;
      timer =
          some (delay_ms h.max_reconnect_attempts h.base_reconnect_delay_ms h.reconnect_attempts);
    }

-- The handler of a wait of reconnect_timer_; `cancelled` is an error code. It may be that of an earlier
-- wait than the one that is armed now.
unfoldable pub timer_fires : Bool → Helper → Helper
unfolding do_connect
timer_fires cancelled h =
    let h' : Helper = record h { reconnect_pending = false } in
    if cancelled
    then h'
    else if h'.should_reconnect && not h'.user_stopped
    then do_connect h'
    else h'

-- The tasks that restore the subscriptions.
unfoldable pub restore_tasks : ℕ → List (List ℕ × ℕ) → List Task
restore_tasks k [] = []
restore_tasks k (s ∷ ss) = client_task k (async_subscribe s.0 s.1 none) ∷ restore_tasks k ss

unfoldable pub restore_subscriptions : ℕ → Option Client → List (List ℕ × ℕ) → List Task
unfolding restore_tasks
restore_subscriptions k none ss = []
restore_subscriptions k (some c) ss = restore_tasks k ss

-- The callback of on_connect.
unfoldable pub connect_callback : Bool → Helper → Helper
unfolding do_reconnect restore_subscriptions
connect_callback false h = do_reconnect h
connect_callback true h = record h {
  reconnect_attempts = 0;
  initial_connect = false;
  tasks = h.tasks ++ restore_subscriptions (length h.released) h.client h.subscribes;
}

-- The callback of on_close.
unfoldable pub close_callback : Helper → Helper
unfolding do_reconnect
close_callback h = if h.should_reconnect && not h.user_stopped then do_reconnect h else h

pub is_reconnect_armed : Helper → Bool
is_reconnect_armed h = h.running && h.should_reconnect

unfoldable pub rearm_reconnect : Helper → Helper × Bool
rearm_reconnect h =
    if not h.running || h.user_stopped
    then (h, false)
    else if h.should_reconnect
    then (h, true)
    else (
      post_task rearms
          (record h { should_reconnect = true; reconnect_attempts = 0; initial_connect = false }),
      true,
    )

-- The task that rearm_reconnect() posts.
unfoldable pub rearm_task : Helper → Helper
unfolding do_connect cancel_wait
rearm_task h =
    if not h.should_reconnect || h.user_stopped
    then h
    else do_connect (record h {
      timer = none;
      late_waits = cancel_wait h.timer h.late_waits;
      reconnect_pending = false;
    })
