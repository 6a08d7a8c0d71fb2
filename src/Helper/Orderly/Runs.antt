-- ===== src/Helper/Orderly/Runs.antt =====
-- What holds of a helper at every moment, over its runs.
use lite_mqtt.Prelude.{true, false, none}
use lite_mqtt.Client.{Client}
use lite_mqtt.Helper.{Helper}
use lite_mqtt.Helper.Policy.{cancel_wait}

-- The helper that stop() leaves before it asks the client to disconnect.
abbrev stopping : Helper → Helper
stopping h = record h {
  user_stopped = true;
  should_reconnect = false;
  timer = none;
  late_waits = cancel_wait h.timer h.late_waits;
  reconnect_pending = false;
  running = false;
}
