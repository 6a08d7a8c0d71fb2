-- ===== src/Helper/Tests.antt =====
-- The reconnect policy at concrete inputs.
use lite_mqtt.Prelude.{
  ℕ, ◌+◌, ◌*◌, ◌^◌, ◌≤◌, ◌<◌, ◌≡◌, refl, min, Bool, true, false, none, some, List, [], ◌∷◌, arith,
}
use lite_mqtt.Helper.{pos, Helper, new_helper}
use lite_mqtt.Helper.Policy.{
  delay_ms, grown_delay, connect_client, set_reconnect_config, do_connect, set_max_attempts,
}
use lite_mqtt.Client.{Client, new_client}
use lite_mqtt.Connection.Writes.{connected}
use lite_mqtt.Helper.Lifecycle.{
  start, start_io_thread, init_client, setup_callbacks, install_callbacks, stop_begins, stop_ends,
  release_client, has_client,
}
use lite_mqtt.Helper.Events.{
  Event, stop_called, publish_called, task_runs, io_runs, late_wait_ends, helper_run,
}
use lite_mqtt.Client.Events.{connect_ends, read_fails}
use lite_mqtt.Connection.Asio.{other}
use lite_mqtt.Helper.Delay.{delay_ms-doc}
use lite_mqtt.Helper.Accounts.{helper_account}
use lite_mqtt.Helper.Accounts.Runs.{all_asks, helper_publishes_answered_once}
use lite_mqtt.Helper.Accounts.Release.{left_behind, release_client_owes}
use lite_mqtt.Helper.Restart.{start-stop_on_io_thread}
use lite_mqtt.Helper.Backoff.{fail_rounds, IsTrying, retries_up_to_limit, large_limit_never_ends}

abbrev idle_helper : Helper
idle_helper = record (new_helper (99 ∷ [])) { reconnect_attempts = 5 }

started : ℕ → Helper
unfolding start set_reconnect_config
started m = start (set_reconnect_config (pos m) (pos 500) idle_helper)

started-IsTrying : (m : ℕ) → IsTrying m 0 (started m)
unfolding started start start_io_thread do_connect set_reconnect_config set_max_attempts init_client
    setup_callbacks
started-IsTrying m = record {
  armed = refl;
  wanted = refl;
  free = refl;
  counted = refl;
  limit = refl;
}

retries_up_to_limit_example :
    ((n : ℕ)
      → n ≤ 3
      → ((fail_rounds n (started 3)).should_reconnect ≡ true)
        × ((fail_rounds n (started 3)).connects ≡ (started 3).connects + n))
    × ((fail_rounds 4 (started 3)).should_reconnect ≡ false)
    × ((fail_rounds 4 (started 3)).connects ≡ (started 3).connects + 3)
retries_up_to_limit_example = retries_up_to_limit 3 (started 3) (omega arith) (started-IsTrying 3)

large_limit_never_ends_example : (fail_rounds 5 (started 2000000)).should_reconnect ≡ true
large_limit_never_ends_example =
    large_limit_never_ends 2000000 0 5 (started 2000000) (omega arith) (omega arith)
      (started-IsTrying 2000000)

delay_ms-doc_example :
    (delay_ms (pos 10) 1000 25 ≡ min (1000 * 2 ^ 25) 30000)
    × (grown_delay 1000 25 < 2 ^ 63)
    × (delay_ms (pos 10) 1000 25 < 2 ^ 31)
delay_ms-doc_example = delay_ms-doc 10 1000 25 (omega arith)

-- A helper connects, publishes, loses the connection and is stopped on its io thread.
abbrev short_life : List Event
short_life =
    io_runs (connect_ends none)
    ∷ publish_called (116 ∷ []) (1 ∷ []) 1 (some 7)
    ∷ task_runs
    ∷ publish_called (116 ∷ []) (2 ∷ []) 2 (some 8)
    ∷ io_runs (read_fails (other 2))
    ∷ stop_called true
    ∷ late_wait_ends true
    ∷ []

abbrev any_callback : ℕ → Bool
any_callback cb = true

started-owned : has_client (started 3).client ≡ true
unfolding started start start_io_thread do_connect connect_client init_client setup_callbacks
    install_callbacks has_client
started-owned = refl

helper_publishes_answered_once_example :
    helper_account any_callback (helper_run short_life (started 3))
    ≡ all_asks any_callback short_life + helper_account any_callback (started 3)
helper_publishes_answered_once_example =
    helper_publishes_answered_once any_callback short_life (started 3) tt started-owned

-- A connected session with one publish that waits for its PUBACK.
abbrev waiting_client : Client
waiting_client = record new_client {
  pending_publishes =
      (
        1,
        record {
          topic = 116 ∷ [];
          qos = 1;
          payload = 1 ∷ [];
          callback = some 7;
          timer_armed = true;
          attempts = 1;
        },
      )
      ∷ [];
  conn = record new_client.conn { state = connected };
}

abbrev waiting_helper : Helper
waiting_helper = record idle_helper { client = some waiting_client; io_thread = true }

release_client_owes_example :
    ((release_client waiting_helper).client ≡ none)
    × ((release_client waiting_helper).seen ≡ [])
    × ((release_client waiting_helper).released ≡ left_behind waiting_client ∷ [])
    × ((left_behind waiting_client).pending_publishes ≡ waiting_client.pending_publishes)
    × (helper_account any_callback (release_client waiting_helper)
        ≡ helper_account any_callback waiting_helper)
release_client_owes_example =
    release_client_owes any_callback waiting_client waiting_helper refl refl refl refl

start-stop_on_io_thread_example :
    ((start (stop_ends (stop_begins false waiting_helper))).terminated ≡ false)
    × ((start (stop_begins true waiting_helper)).terminated ≡ true)
start-stop_on_io_thread_example = start-stop_on_io_thread waiting_helper refl
