-- ===== src/Log/Tests.antt =====
-- Log statements at concrete settings.
use lite_mqtt.Prelude.{◌≡◌, some, List, [], ◌∷◌, ◌++◌, if◌then◌else◌}
use lite_mqtt.Log.{new_world, warn, log_enabled, open_stream, set_channel_handler}
use lite_mqtt.Log.Stream.{
  StreamStep, appends, moves, changes, run_stream, settings, texts, recipients, channel_sink,
  message, run_stream_once,
}

-- A statement to channel 3, whose handler 5 is installed while the message is built.
abbrev statement : List StreamStep
statement =
    appends (104 ∷ []) ∷ moves ∷ changes (set_channel_handler 3 (some 5)) ∷ appends (105 ∷ []) ∷ []

run_stream_once_example :
    run_stream statement (open_stream (some 3) warn [] 7 new_world) new_world ≡ (
      let w' = settings statement new_world in
      if log_enabled warn new_world
      then record w' {
        out =
            w'.out
            ++ recipients
                (channel_sink (some 3) w')
                (log_enabled warn w')
                w'.handler
                (message (some 3) warn [] 7 (texts statement));
      }
      else w')
run_stream_once_example = run_stream_once (some 3) warn [] 7 statement new_world new_world
