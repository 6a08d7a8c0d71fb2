-- ===== src/Helper/Events.antt =====
-- inc/litemqtt/mqtt_helper.hpp: what can happen to a helper: calls from the application, tasks and
-- completions that the io thread runs. Tasks run in the order in which they were posted. The wait of
-- stop() is over only where stop() has begun and start() was not called since.
use lite_mqtt.Prelude.{ℕ, zero, suc, Bool, false, if◌then◌else◌, Option, none, some, List, [], ◌∷◌}
use lite_mqtt.Client.{Callback}
use lite_mqtt.Client.Events.{Happening, client_step}
use lite_mqtt.Helper.{Task, client_task, rearms, Helper}
use lite_mqtt.Helper.Policy.{timer_fires, rearm_reconnect, rearm_task}
use lite_mqtt.Helper.Callbacks.{with_client, with_released, on_message, subscribe, publish}
use lite_mqtt.Helper.Lifecycle.{start, stop_begins, stop_ends}

pub data Event : Type 0 where
  starts stop_waits_over backoff_ends rearm_called task_runs : Event
  stop_called : Bool → Event
  message_callback_set : Option ℕ → Event
  subscribe_called : List ℕ → ℕ → Callback → Event
  publish_called : List ℕ → List ℕ → ℕ → Callback → Event
  io_runs : Happening → Event
  late_wait_ends : Bool → Event
  released_runs : ℕ → Happening → Event

unfoldable pub run_task : List Task → Helper → Helper
unfolding with_released
run_task [] h = h
run_task (client_task k t ∷ ts) h =
    with_released (client_step t) k [] h.released (record h { tasks = ts })
run_task (rearms ∷ ts) h = rearm_task (record h { tasks = ts })

-- The timer expires only while it is armed.
unfoldable pub backoff_expires : Option ℕ → Helper → Helper
unfolding timer_fires
backoff_expires none h = h
backoff_expires (some ms) h = timer_fires false (record h { timer = none })

-- The completion of a wait that was cancelled runs; a wait that had expired by then runs without an
-- error.
unfoldable pub late_wait_completes : Bool → ℕ → Helper → Helper
unfolding timer_fires
late_wait_completes cancelled zero h = h
late_wait_completes cancelled (suc n) h = timer_fires cancelled (record h { late_waits = n })

unfoldable pub helper_step : Event → Helper → Helper
unfolding run_task backoff_expires late_wait_completes with_released
helper_step starts h = start h
helper_step stop_waits_over h = if h.running then h else stop_ends h
helper_step backoff_ends h = backoff_expires h.timer h
helper_step rearm_called h = (rearm_reconnect h).0
helper_step task_runs h = run_task h.tasks h
helper_step (stop_called on_io_thread) h = stop_begins on_io_thread h
helper_step (message_callback_set callback) h = on_message callback h
helper_step (subscribe_called topic qos callback) h = subscribe topic qos callback h
helper_step (publish_called topic payload qos callback) h = publish topic payload qos callback h
helper_step (io_runs t) h = with_client (client_step t) h.client h
helper_step (late_wait_ends cancelled) h = late_wait_completes cancelled h.late_waits h
helper_step (released_runs k t) h = with_released (client_step t) k [] h.released h

unfoldable pub helper_run : List Event → Helper → Helper
unfolding helper_step
helper_run [] h = h
helper_run (e ∷ es) h = helper_run es (helper_step e h)
